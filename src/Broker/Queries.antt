-- ===== src/Broker/Queries.antt =====
-- src/broker-1.ts: what the broker tells of itself. `buildStatsSnapshot`, without the figures of the process,
-- `retrieveLockInfo`, and `clampMax`.
use mathlib.Core.List.{Perm}
use mathlib.Core.List.Perm
use live_mutex.Prelude.{
  ℕ, zero, suc, ◌+◌, ◌≤◌, ◌≡◌, refl, sym, ap, subst, ◌||◌, List, [], ◌∷◌, ◌++◌, arith, leb, ltb,
  leb→le, leb→lt, if◌then◌else◌, length, All, Bool-cases, inl, inr,
}
use live_mutex.Dict.{Dict, size}
use live_mutex.LinkedQueue.{LinkedQueue}
use live_mutex.Broker.Types.{LockObj, Broker}
use live_mutex.Broker.Lock.{Limit, absent, whole, malformed}
use live_mutex.Broker.Fifo.{take, drop}

-- A row of `topKeys`.
pub record KeyRow : Type 0 where
  pub key : ℕ
  pub holders : ℕ
  pub waiters : ℕ
  pub max : ℕ
  pub fencing_token : ℕ

pub record Snapshot : Type 0 where
  pub connected_clients : ℕ
  pub total_locks : ℕ
  pub total_holders : ℕ
  pub total_readers : ℕ
  pub pending_requests : ℕ
  pub active_timeouts : ℕ
  pub pending_deadlines : ℕ
  pub ttl_evictions_total : ℕ
  pub composite_locks_held : ℕ
  pub top_keys : List KeyRow

-- `holders + waiters`
abbrev pub weight : KeyRow → ℕ
weight r = r.holders + r.waiters

-- `topKeys.sort(…)` by falling weight, which keeps the order of equal rows.
unfoldable pub insert_row : KeyRow → List KeyRow → List KeyRow
insert_row r [] = r ∷ []
insert_row r (s ∷ ss) = if leb (weight s) (weight r) then r ∷ s ∷ ss else s ∷ insert_row r ss

unfoldable pub sort_rows : List KeyRow → List KeyRow
unfolding insert_row
sort_rows [] = []
sort_rows (r ∷ rs) = insert_row r (sort_rows rs)

module _ {Q : Type 0} ⦃lq : LinkedQueue Q⦄ where
  abbrev pub row_of : ℕ → LockObj Q → KeyRow
  row_of k l = record {
    key = k;
    holders = size l.lockholders;
    waiters = lq.count l.notify;
    max = l.max;
    fencing_token = l.next_fencing_token;
  }

  unfoldable pub rows : Dict (LockObj Q) → List KeyRow
  rows [] = []
  rows ((k, l) ∷ d) =
      if ltb 0 (size l.lockholders) || ltb 0 (lq.count l.notify)
      then row_of k l ∷ rows d
      else rows d

  unfoldable pub sum_holders : Dict (LockObj Q) → ℕ
  sum_holders [] = 0
  sum_holders ((k, l) ∷ d) = size l.lockholders + sum_holders d

  unfoldable pub sum_readers : Dict (LockObj Q) → ℕ
  sum_readers [] = 0
  sum_readers ((k, l) ∷ d) = l.readers + sum_readers d

  unfoldable pub sum_waiters : Dict (LockObj Q) → ℕ
  sum_waiters [] = 0
  sum_waiters ((k, l) ∷ d) = lq.count l.notify + sum_waiters d

  unfoldable pub build_stats_snapshot : Broker Q → Snapshot
  unfolding rows sort_rows sum_holders sum_readers sum_waiters
  build_stats_snapshot b = record {
    connected_clients = length b.connected_clients;
    total_locks = size b.locks;
    total_holders = sum_holders b.locks;
    total_readers = sum_readers b.locks;
    pending_requests = sum_waiters b.locks;
    active_timeouts = size b.timeouts;
    pending_deadlines = size b.holder_deadlines;
    ttl_evictions_total = b.ttl_evictions_total;
    composite_locks_held = size b.composite_locks;
    top_keys = take 10 (sort_rows (rows b.locks));
  }

-- `clampMax` with `concurrencyCapClampsTotal`: the limit to use, and the new count.
unfoldable pub clamp_max : ℕ → Limit → ℕ → ℕ × ℕ
clamp_max cap absent total = (1, total)
clamp_max cap malformed total = (1, total)
clamp_max cap (whole zero) total = (1, total)
clamp_max cap (whole (suc n)) total = if ltb cap (suc n) then (cap, total + 1) else (suc n, total)

-- With a positive cap the limit lies between 1 and the cap, and the count goes up exactly when the request asked
-- for more than the cap.
pub clamp_max_bounds :
    (cap : ℕ) (requested : Limit) (total : ℕ)
    → 1 ≤ cap
    → (1 ≤ (clamp_max cap requested total).0)
      × ((clamp_max cap requested total).0 ≤ cap)
      × ((clamp_max cap requested total).1
          ≡ (elim requested [ whole n ↦ if ltb cap n then total + 1 else total | _ ↦ total ]))
unfolding clamp_max
clamp_max_bounds cap absent total positive = (omega arith, omega arith, refl)
clamp_max_bounds cap malformed total positive = (omega arith, omega arith, refl)
clamp_max_bounds cap (whole zero) total positive = (omega arith, omega arith, ground arith)
clamp_max_bounds cap (whole (suc n)) total positive = ground arith

-- The rows fall in weight.
abbrev pub IsFalling : List KeyRow → Type 0
IsFalling [] = Unit
IsFalling (r ∷ rs) = All (λ s. weight s ≤ weight r) rs × IsFalling rs

All-mono :
    (m n : ℕ) (rs : List KeyRow) → m ≤ n → All (λ s. weight s ≤ m) rs → All (λ s. weight s ≤ n) rs
All-mono m n [] le all = tt
All-mono m n (r ∷ rs) le all = (omega (arith, all.0), All-mono m n rs le all.1)

All-insert_row :
    (n : ℕ) (r : KeyRow) (rs : List KeyRow)
    → weight r ≤ n
    → All (λ s. weight s ≤ n) rs
    → All (λ s. weight s ≤ n) (insert_row r rs)
unfolding insert_row
All-insert_row n r [] le all = (le, tt)
All-insert_row n r (s ∷ ss) le all = ground (arith, All-insert_row n r ss le all.1)

insert_row-IsFalling : (r : KeyRow) (rs : List KeyRow) → IsFalling rs → IsFalling (insert_row r rs)
unfolding insert_row
insert_row-IsFalling r [] h = (tt, tt)
insert_row-IsFalling r (s ∷ ss) h = elim (Bool-cases (leb (weight s) (weight r))) [
  | inl e ↦ rw e ((leb→le _ _ e, All-mono (weight s) (weight r) ss (leb→le _ _ e) h.0), h)
  | inr e ↦ rw e (
    All-insert_row (weight s) r ss (omega (arith, leb→lt _ _ e)) h.0,
    insert_row-IsFalling r ss h.1,
  )
]

sort_rows-IsFalling : (rs : List KeyRow) → IsFalling (sort_rows rs)
unfolding sort_rows
sort_rows-IsFalling [] = tt
sort_rows-IsFalling (r ∷ rs) = insert_row-IsFalling r (sort_rows rs) (sort_rows-IsFalling rs)

insert_row-perm : (r : KeyRow) (rs : List KeyRow) → Perm (insert_row r rs) (r ∷ rs)
unfolding insert_row
insert_row-perm r [] = Perm.refl _
insert_row-perm r (s ∷ ss) = elim (Bool-cases (leb (weight s) (weight r))) [
  | inl e ↦ rw e (Perm.refl _)
  | inr e ↦ rw e (Perm.trans (Perm.cons s (insert_row-perm r ss)) (Perm.swap r s ss))
]

sort_rows-perm : (rs : List KeyRow) → Perm (sort_rows rs) rs
unfolding sort_rows
sort_rows-perm [] = Perm.refl _
sort_rows-perm (r ∷ rs) =
    Perm.trans (insert_row-perm r (sort_rows rs)) (Perm.cons r (sort_rows-perm rs))

take-append-drop : (n : ℕ) (rs : List KeyRow) → take n rs ++ drop n rs ≡ rs
take-append-drop zero rs = refl
take-append-drop (suc n) [] = refl
take-append-drop (suc n) (r ∷ rs) = ap (λ xs. r ∷ xs) (take-append-drop n rs)

length-take-le : (n : ℕ) (rs : List KeyRow) → length (take n rs) ≤ n
length-take-le zero rs = omega arith
length-take-le (suc n) [] = omega arith
length-take-le (suc n) (r ∷ rs) = omega (arith, length-take-le n rs)

All-drop :
    (m n : ℕ) (rs : List KeyRow) → All (λ s. weight s ≤ m) rs → All (λ s. weight s ≤ m) (drop n rs)
All-drop m zero rs all = all
All-drop m (suc n) [] all = tt
All-drop m (suc n) (r ∷ rs) all = All-drop m n rs all.1

-- Every row that is kept weighs as much as any that is dropped.
IsFalling-take :
    (n : ℕ) (rs : List KeyRow)
    → IsFalling rs
    → All (λ r. All (λ s. weight s ≤ weight r) (drop n rs)) (take n rs)
IsFalling-take zero rs h = tt
IsFalling-take (suc n) [] h = tt
IsFalling-take (suc n) (r ∷ rs) h = (All-drop (weight r) n rs h.0, IsFalling-take n rs h.1)

module _ {Q : Type 0} ⦃lq : LinkedQueue Q⦄ where
  -- The keys that the snapshot names are the most contended ones: at most ten rows, which with some others
  -- make up the rows of all keys that are held or awaited, and each of which counts at least as many holders
  -- and waiters as any of the others.
  pub top_keys-most :
      (b : Broker Q)
      → (others : List KeyRow) × Perm ((build_stats_snapshot b).top_keys ++ others) (rows b.locks)
        × (length (build_stats_snapshot b).top_keys ≤ 10)
        × All (λ r. All (λ s. weight s ≤ weight r) others) (build_stats_snapshot b).top_keys
  unfolding build_stats_snapshot
  top_keys-most b =
      let sorted = sort_rows (rows b.locks) in
      (
        drop 10 sorted,
        subst (λ xs. Perm xs (rows b.locks)) (sym (take-append-drop 10 sorted))
            (sort_rows-perm (rows b.locks)),
        length-take-le 10 sorted,
        IsFalling-take 10 sorted (sort_rows-IsFalling (rows b.locks)),
      )
