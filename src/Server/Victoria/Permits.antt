-- ===== src/Server/Victoria/Permits.antt =====
-- The semaphore bounds the posts under way, whatever the workers push and however the posts end.
use hakuraku.Prelude.{
  Option, none, some, ℕ, zero, suc, ◌+◌, ◌≤◌, ◌<◌, ◌≡◌, refl, ◌∙◌, Bool, true, false, List, [], ◌∷◌,
  ◌++◌, Text, codes, length, length-append, keep_if, keep_if-append, text_eq, arith, if◌then◌else◌,
}
use hakuraku.Server.State.{IngestionItem, stats_item, probe_item}
use hakuraku.Server.Victoria.{Value, push_item, Pushes, no_pushes, acquire, push, finish, remove_at}

-- Runs of events; `n` snapshots were pushed.
pub data Run : ℕ → Pushes → Type 0 where
  begun : Run 0 no_pushes
  pushing : {n : ℕ} {p : Pushes} (payload : Text) → Run n p → Run (n + 1) (push payload p)
  ending :
      {n : ℕ} {p : Pushes} (i : ℕ) (sent : Bool)
      → i < length p.in_flight
      → Run n p
      → Run n (finish i sent p)

abbrev is_dropped : Text → Bool
is_dropped = text_eq (codes "victoriametrics_backpressure")

-- The pushes that found no permit.
abbrev pub dropped : Pushes → ℕ
dropped p = length (keep_if is_dropped p.db_errors)

length-remove_at :
    {A : Type 0} (i : ℕ) (xs : List A) → i < length xs → length (remove_at i xs) + 1 ≡ length xs
length-remove_at i [] h = absurd (omega arith)
length-remove_at zero (x ∷ xs) h = omega arith
length-remove_at (suc i) (x ∷ xs) h = omega (arith, length-remove_at i xs (omega arith))

-- The permits that are left and the posts under way are 64, and the pushes are accounted for.
abbrev IsBounded : ℕ → Pushes → Type 0
IsBounded n p =
    (p.permits + length p.in_flight ≡ 64) × (length p.in_flight + p.posted + dropped p ≡ n)

dropped-append :
    (p : Pushes) (kind : Text)
    → length (keep_if is_dropped (p.db_errors ++ kind ∷ []))
      ≡ dropped p + (if is_dropped kind then 1 else 0)
dropped-append p kind =
    rw (keep_if-append is_dropped p.db_errors (kind ∷ [])) (
      length-append (keep_if is_dropped p.db_errors) (keep_if is_dropped (kind ∷ []))
      ∙ ground arith)

acquire-IsBounded :
    (n k : ℕ) (payload : Text) (p : Pushes)
    → p.permits ≡ k
    → IsBounded n p
    → IsBounded (n + 1) (acquire k payload p)
unfolding text_eq
acquire-IsBounded n zero payload p e (total, all) =
    (total, omega (arith, all, dropped-append p (codes "victoriametrics_backpressure")))
acquire-IsBounded n (suc k) payload p e (total, all) = (
  omega (arith, e, total, length-append p.in_flight (payload ∷ [])),
  omega (arith, all, length-append p.in_flight (payload ∷ [])),
)

finish-IsBounded :
    (n i : ℕ) (sent : Bool) (p : Pushes)
    → i < length p.in_flight
    → IsBounded n p
    → IsBounded n (finish i sent p)
unfolding finish text_eq
finish-IsBounded n i true p h (total, all) = (
  omega (arith, total, length-remove_at i p.in_flight h),
  omega (arith, all, length-remove_at i p.in_flight h),
)
finish-IsBounded n i false p h (total, all) = (
  omega (arith, total, length-remove_at i p.in_flight h),
  omega (
    arith,
    all,
    length-remove_at i p.in_flight h,
    dropped-append p (codes "victoriametrics_post"),
  ),
)

-- The semaphore's permits are kept.
abbrev pub IsWhole : Pushes → Type 0
IsWhole p = p.permits + length p.in_flight ≡ 64

pub push_item-IsWhole :
    {J O F : Type 0} (v : Value J O F) (url : Option Text) (item : IngestionItem J) (p : Pushes)
    → IsWhole p
    → IsWhole (push_item v url item p)
unfolding push_item push
push_item-IsWhole v none item p h = h
push_item-IsWhole v (some url) (stats_item node_id t s j) p h =
    (acquire-IsBounded _ p.permits _ p refl (h, refl)).0
push_item-IsWhole v (some url) (probe_item node_id target ok l e t) p h = h

pub finish-IsWhole :
    (i : ℕ) (sent : Bool) (p : Pushes)
    → i < length p.in_flight
    → IsWhole p
    → IsWhole (finish i sent p)
finish-IsWhole i sent p h whole = (finish-IsBounded _ i sent p h (whole, refl)).0

-- In every run the permits that are left and the posts under way are 64 together, so that no more
-- than 64 posts are ever under way, and each snapshot pushed is under way, has ended or was counted
-- as dropped.
pub Run-bounded :
    (n : ℕ) (p : Pushes)
    → Run n p
    → (p.permits + length p.in_flight ≡ 64)
      × (length p.in_flight ≤ 64)
      × (length p.in_flight + p.posted + dropped p ≡ n)
unfolding push
Run-bounded n p run = let (total, all) = kept n p run in (total, omega (arith, total), all)
  where
    kept : (n : ℕ) (p : Pushes) → Run n p → IsBounded n p
    kept n p begun = (refl, refl)
    kept n p (pushing {n = m} {p = q} payload run) =
        acquire-IsBounded m q.permits payload q refl (kept m q run)
    kept n p (ending {n = m} {p = q} i sent h run) = finish-IsBounded m i sent q h (kept m q run)
