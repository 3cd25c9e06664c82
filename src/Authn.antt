-- ===== src/Authn.antt =====
-- rs2-core/src/authn.rs: the chain of authenticators. An authenticator is a function of the message,
-- which it may change; the context of its mount is part of it.
pub mod Chain
mod Tests
use rs2_runtime.Common.{ℕ, Bool, Option, none, some, List, [], ◌∷◌, any}
use rs2_runtime.Error.{Result, ok, err, RsError}

pub data AuthOutcome : Type 0 where
  pass : AuthOutcome
  unrecognised : RsError → AuthOutcome
  authenticated : Option ℕ → AuthOutcome

pub record Authenticator (M : Type 0) : Type 0 where
  pub ambient_credential : M → Bool
  pub try_authenticate : M → M × Result AuthOutcome

abbrev pub get_or_insert : Option RsError → RsError → Option RsError
get_or_insert none e = some e
get_or_insert (some first) e = some first

module _ {M : Type 0} where
  unfoldable pub has_ambient_credential : List (Authenticator M) → M → Bool
  has_ambient_credential chain msg = any (λ a. a.ambient_credential msg) chain

  -- The end of the loop: the first credential that no one could use is the answer.
  abbrev pub settle_chain : M → Option RsError → M × Result (Option ℕ)
  settle_chain msg none = (msg, ok none)
  settle_chain msg (some e) = (msg, err e)

  -- One round from what an authenticator gave; `rest` is the loop over the others.
  abbrev pub attempt :
      (M → Option RsError → M × Result (Option ℕ))
      → Option RsError
      → M × Result AuthOutcome
      → M × Result (Option ℕ)
  attempt rest seen (msg, err e) = (msg, err e)
  attempt rest seen (msg, ok pass) = rest msg seen
  attempt rest seen (msg, ok (unrecognised e)) = rest msg (get_or_insert seen e)
  attempt rest seen (msg, ok (authenticated expires)) = (msg, ok expires)

  pub chain_from : List (Authenticator M) → M → Option RsError → M × Result (Option ℕ)
  chain_from [] msg seen = settle_chain msg seen
  chain_from (a ∷ chain) msg seen = attempt (chain_from chain) seen (a.try_authenticate msg)

  unfoldable pub authenticate : List (Authenticator M) → M → M × Result (Option ℕ)
  unfolding chain_from
  authenticate chain msg = chain_from chain msg none
