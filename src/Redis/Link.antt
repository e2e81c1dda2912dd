-- ===== src/Redis/Link.antt =====
-- A call of a server over the network: it may be answered, not arrive, or run with its answer lost.
use anime_companion_ai.Prelude.{Option, none, some}

pub data Link : Type 0 where
  answered unsent answer_lost : Link

-- `none` is the error of the client.
unfoldable pub call {ℓ κ} : {S : Type ℓ} {A : Type κ} → Link → (S → A × S) → S → Option A × S
call answered f s = (some (f s).0, (f s).1)
call unsent f s = (none, s)
call answer_lost f s = (none, (f s).1)
