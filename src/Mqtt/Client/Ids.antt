-- ===== src/Mqtt/Client/Ids.antt =====
-- The ids of outgoing messages.
use lodos.Base.{ℕ, zero, suc, ◌+◌, ◌%◌, ◌≤◌, ◌≡◌, ◌∙◌, ap, arith}
use lodos.Mqtt.Client.{Client, next_id, get_online_msg_id}

-- The client after k ids.
pub after_ids : ℕ → Client → Client
after_ids zero c = c
after_ids (suc k) c = (get_online_msg_id (after_ids k c)).1

next_id-cycle : (k : ℕ) → next_id (k % 65535 + 1) ≡ suc k % 65535 + 1
unfolding next_id
next_id-cycle k = ground arith

id-after_ids :
    (k : ℕ) (c : Client) → c.curr_id ≡ 0 → (get_online_msg_id (after_ids k c)).0 ≡ k % 65535 + 1
unfolding get_online_msg_id after_ids
id-after_ids zero c h = ground arith
id-after_ids (suc k) c h = ap next_id (id-after_ids k c h) ∙ next_id-cycle k

-- The ids of a new client are 1, 2, and so on to 65535, and then 1 again: never 0, which the protocol
-- forbids, and never more than a uint16 holds.
pub get_online_msg_id-cycle :
    (k : ℕ) (c : Client)
    → c.curr_id ≡ 0
    → ((get_online_msg_id (after_ids k c)).0 ≡ k % 65535 + 1)
      × (1 ≤ (get_online_msg_id (after_ids k c)).0)
      × ((get_online_msg_id (after_ids k c)).0 ≤ 65535)
get_online_msg_id-cycle k c h =
    let e = id-after_ids k c h in (e, omega (arith, e), omega (arith, e))
