-- ===== src/Mqtt/Client/Sends.antt =====
-- WriteMsg.
use lodos.Base.{◌≡◌, inl, inr, Bool-cases, if_true, if_false, Option}
use lodos.Io.Result.{Error, ok}
use lodos.Io.Reader.{Bytes}
use lodos.Mqtt.Client.{Client, write, push_msg, write_msg}

-- WriteMsg returns nil or an error in whatever state the client is.
pub write_msg-total :
    (topic body : Bytes) (c : Client)
    → (e : Option Error) × (c' : Client) × (write_msg topic body c ≡ (ok e, c'))
unfolding write_msg push_msg write
write_msg-total topic body c = elim (Bool-cases c.is_stop) [
  | inl e ↦ (_, _, if_true c.is_stop _ _ e)
  | inr e ↦ (_, _, if_false c.is_stop _ _ e)
]
