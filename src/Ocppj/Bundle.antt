-- ===== src/Ocppj/Bundle.antt =====
-- What the dispatchers of ocppj/dispatcher.go hand on: a request with its bytes and its context, and how
-- it ended. `bytes` is the field `Data`; `Request` stands for an `ocpp.Request` that is not nil, and
-- `none` for nil; a context is a number, and `none` is the background context.
use ocpp_go.Base.{
  ℕ, String, ◌≡◌, ◌≢◌, Bool, false, Option, none, some, List, map, text_discrete, test,
}
use ocpp_go.Ocpp.{Error}

-- The fields of a `Call` that the dispatcher reads.
pub record Call (Request : Type 0) : Type 0 where
  pub unique_id : String
  pub action : String
  pub payload : Option Request

pub record RequestBundle (Request : Type 0) : Type 0 where
  pub call : Option (Call Request)
  pub bytes : Option String
  pub ctx : Option ℕ

pub data Outcome (Request : Type 0) : Type 0 where
  responded : String → Outcome Request
  canceled : String → Option Request → Error → Outcome Request

-- What the world answers during a step: the error of a write, and that of a context, if any.
pub record World : Type 0 where
  pub write : String → Option String
  pub ctx_err : ℕ → Option String

-- 24 hours and 30 seconds, in seconds.
abbrev pub default_timeout_tick : ℕ
default_timeout_tick = 86400

abbrev pub default_message_timeout : ℕ
default_message_timeout = 30

abbrev pub ctx_error : World → Option ℕ → Option String
ctx_error w none = none
ctx_error w (some c) = w.ctx_err c

module _ {Request : Type 0} where
  abbrev pub has_id : String → RequestBundle Request → Bool
  has_id request_id b = elim b.call [
    | none ↦ false
    | some c ↦ test (text_discrete c.unique_id request_id)
  ]

  -- A bundle that the pump can send: it has a call with an ID, and its bytes.
  abbrev pub IsSendable : RequestBundle Request → Type 0
  IsSendable b =
      (c : Call Request) × (m : String) × (b.call ≡ some c)
      × (b.bytes ≡ some m)
      × (c.unique_id ≢ "")

  abbrev pub id_of : Option (Call Request) → String
  id_of none = ""
  id_of (some c) = c.unique_id

  abbrev pub ids : List (RequestBundle Request) → List String
  ids = map λ b. id_of b.call

  abbrev pub outcome_id : Outcome Request → String
  outcome_id (responded id) = id
  outcome_id (canceled id request err) = id
