-- ===== src/Broker/Fencing.antt =====
-- Fencing tokens: what a holder can conclude from the number that came with its grant.
use live_mutex.Prelude.{ℕ, ◌+◌, ◌≤◌, ◌<◌, ◌≡◌, ◌≢◌, List, [], ◌∷◌, arith, All, Every}
use live_mutex.Dict.{Dict, set, erase, AllEntries, AllEntries-set, AllEntries-erase}
use live_mutex.LinkedQueue.{LinkedQueue}
use live_mutex.Broker.Types.{Env, Holder}
use live_mutex.Broker.Lock.{LockRequest, update_limits}
use live_mutex.Broker.Events.{Event, lock_frame, run, new_broker}
use live_mutex.Broker.Closure.{Core, core, Holds, IsClosed}
use live_mutex.Broker.Closure.Locking.{IsLockClosed}
use live_mutex.Broker.Closure.Runs.{Allows, run-Holds, new_broker-Holds}

abbrev pub TokensLe : ℕ → Dict Holder → Type 0
TokensLe n d = AllEntries (λ u h. h.fencing_token ≤ n) d

-- No two holders have the same token.
abbrev pub TokensDiffer : Dict Holder → Type 0
TokensDiffer [] = Unit
TokensDiffer ((u, h) ∷ d) = AllEntries (λ v g. g.fencing_token ≢ h.fencing_token) d × TokensDiffer d

-- The holders of a lock object have different tokens, none above its counter.
pub record IsFenced (k : ℕ) (c : Core) : Type 0 where
  pub counted : TokensLe c.next_fencing_token c.lockholders
  pub differ : TokensDiffer c.lockholders

TokensLe-mono : (m n : ℕ) (d : Dict Holder) → m ≤ n → TokensLe m d → TokensLe n d
TokensLe-mono m n [] le all = tt
TokensLe-mono m n ((u, h) ∷ d) le all = (omega (arith, all.0), TokensLe-mono m n d le all.1)

differ_of_lt :
    (n : ℕ) (h : Holder) (d : Dict Holder)
    → n < h.fencing_token
    → TokensLe n d
    → AllEntries (λ v g. g.fencing_token ≢ h.fencing_token) d
differ_of_lt n h [] lt all = tt
differ_of_lt n h ((u, g) ∷ d) lt all = (omega (arith, all.0), differ_of_lt n h d lt all.1)

TokensDiffer-set :
    (n u : ℕ) (h : Holder) (d : Dict Holder)
    → n < h.fencing_token
    → TokensLe n d
    → TokensDiffer d
    → TokensDiffer (set u h d)
unfolding set
TokensDiffer-set n u h [] lt all diff = (tt, tt)
TokensDiffer-set n u h ((v, g) ∷ d) lt all diff =
    let here = differ_of_lt n h d lt all.1 in
    let apart : h.fencing_token ≢ g.fencing_token = omega (arith, all.0) in
    let there = AllEntries-set (λ v x. x.fencing_token ≢ g.fencing_token) u h d diff.0 apart in
    ground (arith, here, there, TokensDiffer-set n u h d lt all.1 diff.1)

TokensDiffer-erase : (u : ℕ) (d : Dict Holder) → TokensDiffer d → TokensDiffer (erase u d)
unfolding erase
TokensDiffer-erase u [] diff = tt
TokensDiffer-erase u ((v, g) ∷ d) diff =
    let there = AllEntries-erase (λ v x. x.fencing_token ≢ g.fencing_token) u d diff.0 in
    ground (arith, there, TokensDiffer-erase u d diff.1)

-- A grant under the next token, whatever the room.
grant-IsFenced :
    (k u : ℕ) (h : Holder) (c : Core)
    → IsFenced k c
    → h.fencing_token ≡ c.next_fencing_token + 1
    → IsFenced k (record c {
      next_fencing_token = c.next_fencing_token + 1;
      lockholders = set u h c.lockholders;
    })
grant-IsFenced k u h c p token = record {
  counted =
      AllEntries-set (λ u h. h.fencing_token ≤ c.next_fencing_token + 1) u h c.lockholders
        (TokensLe-mono c.next_fencing_token _ c.lockholders (omega arith) p.counted)
        (omega (arith, token));
  differ = TokensDiffer-set c.next_fencing_token u h c.lockholders (omega arith) p.counted p.differ;
}

IsFenced-closed : IsClosed IsFenced
IsFenced-closed = record {
  fresh = λ k now. record { counted = tt; differ = tt };
  remove = λ k u c p. record {
    counted =
        AllEntries-erase (λ u h. h.fencing_token ≤ c.next_fencing_token) u c.lockholders p.counted;
    differ = TokensDiffer-erase u c.lockholders p.differ;
  };
  clear = λ k c p. record { counted = tt; differ = tt };
  admit = λ k u h c p room token. grant-IsFenced k u h c p token;
}

abbrev AnyRequest : LockRequest → Type 0
AnyRequest r = Unit {0}

IsFenced-lock_closed : {Q : Type 0} ⦃lq : LinkedQueue Q⦄ → IsLockClosed Q IsFenced AnyRequest
unfolding update_limits
IsFenced-lock_closed = record {
  new = λ e r h ok token. record { counted = (omega (arith, token), tt); differ = (tt, tt) };
  update = λ r l ok p. record { counted = p.counted; differ = p.differ };
  grant = λ r l h ok p room token.
      grant-IsFenced r.key r.uuid h (core (update_limits r l))
        (record { counted = p.counted; differ = p.differ }) token;
}

any_allowed : (xs : List (Env × Event)) → All (Allows AnyRequest) xs
any_allowed [] = tt
any_allowed ((e, lock_frame r ws) ∷ xs) = (tt, any_allowed xs)
any_allowed ((e, _) ∷ xs) = (tt, any_allowed xs)

-- Whatever events the broker handles from its start (the constructors of `Event`, with read and
-- write requests among them), in whatever order and at whatever times: if the fuel is enough for the run
-- to end, the holders of a key have pairwise different fencing tokens, and none has a token above the
-- counter from which the next one is taken.
pub run-IsFenced :
    (Q : Type 0) ⦃lq : LinkedQueue Q⦄ (fuel : ℕ) (xs : List (Env × Event))
    → Every (Holds IsFenced) (run fuel xs (new_broker {Q = Q}))
run-IsFenced Q fuel xs =
    run-Holds IsFenced-closed IsFenced-lock_closed fuel xs new_broker (any_allowed xs)
      (new_broker-Holds Q IsFenced)
