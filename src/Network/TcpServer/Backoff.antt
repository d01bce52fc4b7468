-- ===== src/Network/TcpServer/Backoff.antt =====
-- How long the loop of run sleeps between errors of Accept that are temporary.
use lodos.Base.{ℕ, zero, suc, ◌*◌, ◌^◌, ◌<◌, ◌≡◌, refl, ap, ◌∙◌, ltb, if◌then◌else◌, arith}
use lodos.Network.TcpServer.{next_delay}

-- The sleep after n errors one behind the other, from a `tempDelay` of zero on.
abbrev pub sleep_after : ℕ → ℕ
sleep_after zero = 0
sleep_after (suc n) = next_delay (sleep_after n)

abbrev pub least : ℕ → ℕ → ℕ
least a b = if ltb a b then a else b

next_delay-least : (x : ℕ) → 0 < x → next_delay (least 1000 x) ≡ least 1000 (2 * x)
next_delay-least x p = ground arith

pow_positive : (n : ℕ) → 0 < 5 * 2 ^ n
pow_positive zero = omega arith
pow_positive (suc n) = omega (arith, pow_positive n)

-- After n + 1 errors of Accept one behind the other that are temporary, the loop sleeps 5 * 2 ^ n
-- milliseconds, and a second where that is more.
pub sleep_after-least : (n : ℕ) → sleep_after (suc n) ≡ least 1000 (5 * 2 ^ n)
sleep_after-least zero = refl
sleep_after-least (suc n) =
    ap next_delay (sleep_after-least n)
    ∙ (next_delay-least (5 * 2 ^ n) (pow_positive n)
        ∙ ap (least 1000) {x = 2 * (5 * 2 ^ n)} {y = 5 * 2 ^ suc n} (omega arith))
