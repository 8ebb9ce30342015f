-- ===== src/Client/Operations/State.antt =====
-- Handlers of requests, `nightfall_client/src/drivers/rest/client_nf_3.rs`: they read and write the
-- client's collections and may fail on the way, when what was written before stays.
use nightfall_4_ce.Common.{Option, none, some, Result, ok, err}
use nightfall_4_ce.Client.Events.Defs.{ClientState}

-- `TransactionHandlerError`, less the texts of its errors, and a panic.
pub data HandlerError : Type 0 where
  json_conversion_error deposit_error database_error custom_error : HandlerError
  error client_not_synchronized panicked : HandlerError

abbrev pub Op : Type 0 → Type 0
Op A = ClientState → Result HandlerError A × ClientState

-- The rest of a chain, after a call.
unfoldable pub and_then :
    {A B : Type 0}
    → Result HandlerError A × ClientState
    → (A → Op B)
    → Result HandlerError B × ClientState
and_then (err e, s) rest = (err e, s)
and_then (ok a, s) rest = rest a s

infixl 5 ◌>>=◌
unfoldable pub ◌>>=◌ : {A B : Type 0} → Op A → (A → Op B) → Op B
unfolding and_then
(first >>= rest) s = and_then (first s) rest

infixl 5 ◌>>◌
unfoldable pub ◌>>◌ : {B : Type 0} → Op (Unit {0}) → Op B → Op B
unfolding and_then
(first >> rest) s = and_then (first s) (λ _. rest)

unfoldable pub return_ok : {A : Type 0} → A → Op A
return_ok a s = (ok a, s)

unfoldable pub throw : {A : Type 0} → HandlerError → Op A
throw e s = (err e, s)

-- `ok_or` and `map_err`, with `?` after them.
unfoldable pub or_throw : {A : Type 0} → Option A → HandlerError → Op A
or_throw none e s = (err e, s)
or_throw (some a) e s = (ok a, s)

unfoldable pub modify : (ClientState → ClientState) → Op (Unit {0})
modify f s = (ok tt, f s)
