-- ===== src/Events/Distinct.antt =====
-- Lists of events with distinct ids.
use flooks.Common.{
  ℕ, ◌≢◌, sym, Bool, true, false, some, List, [], ◌∷◌, All, All-keep, All-take, keep, take, zero,
  suc, leb, nat_eq, if◌then◌else◌,
}
use flooks.Assets.Tables.{EventRow}
use flooks.Events.{mark_row, insert_by_id, sort_by_id, unpublished}
use flooks.Events.Delivery.{insert_by_id-All, sort_by_id-All}

abbrev pub IsApart : ℕ → EventRow → Type 0
IsApart id e = e.id ≢ id

-- No two events of the list have one id.
abbrev pub AreDistinct : List EventRow → Type 0
AreDistinct [] = Unit
AreDistinct (e ∷ es) = All (IsApart e.id) es × AreDistinct es

pub keep-AreDistinct :
    (p : EventRow → Bool) (es : List EventRow) → AreDistinct es → AreDistinct (keep p es)
keep-AreDistinct p [] h = tt
keep-AreDistinct p (e ∷ es) (a, h) = kept (p e) (keep-AreDistinct p es h)
  where
    kept :
        (b : Bool) → AreDistinct (keep p es) → AreDistinct (if b then e ∷ keep p es else keep p es)
    kept true k = (All-keep (IsApart e.id) p es a, k)
    kept false k = k

take-AreDistinct : (n : ℕ) (es : List EventRow) → AreDistinct es → AreDistinct (take n es)
take-AreDistinct zero es h = tt
take-AreDistinct (suc n) [] h = tt
take-AreDistinct (suc n) (e ∷ es) (a, h) = (All-take (IsApart e.id) n es a, take-AreDistinct n es h)

insert_by_id-AreDistinct :
    (e : EventRow) (es : List EventRow)
    → All (IsApart e.id) es
    → AreDistinct es
    → AreDistinct (insert_by_id e es)
unfolding insert_by_id
insert_by_id-AreDistinct e [] a h = (tt, tt)
insert_by_id-AreDistinct e (x ∷ xs) (p, a) (b, h) =
    placed (leb e.id x.id) (insert_by_id-AreDistinct e xs a h)
  where
    placed :
        (c : Bool)
        → AreDistinct (insert_by_id e xs)
        → AreDistinct (if c then e ∷ x ∷ xs else x ∷ insert_by_id e xs)
    placed true k = ((p, a), (b, h))
    placed false k = (insert_by_id-All (IsApart x.id) e xs (λ q. p (sym q)) b, k)

sort_by_id-AreDistinct : (es : List EventRow) → AreDistinct es → AreDistinct (sort_by_id es)
unfolding sort_by_id
sort_by_id-AreDistinct [] h = tt
sort_by_id-AreDistinct (e ∷ es) (a, h) =
    insert_by_id-AreDistinct e (sort_by_id es) (sort_by_id-All (IsApart e.id) es a)
      (sort_by_id-AreDistinct es h)

pub unpublished-AreDistinct :
    (rows : List EventRow) → AreDistinct rows → AreDistinct (unpublished rows)
unfolding unpublished
unpublished-AreDistinct rows h =
    take-AreDistinct 100 _ (sort_by_id-AreDistinct _ (keep-AreDistinct _ rows h))

mark_row-IsApart :
    (id now k : ℕ) (rows : List EventRow)
    → All (IsApart id) rows
    → All (IsApart id) (mark_row now k rows)
unfolding mark_row
mark_row-IsApart id now k [] h = tt
mark_row-IsApart id now k (row ∷ rows) (p, h) =
    (one (nat_eq row.id k), mark_row-IsApart id now k rows h)
  where
    one : (b : Bool) → (if b then record row { published_at = some now } else row).id ≢ id
    one true = p
    one false = p

pub mark_row-AreDistinct :
    (now k : ℕ) (rows : List EventRow) → AreDistinct rows → AreDistinct (mark_row now k rows)
unfolding mark_row
mark_row-AreDistinct now k [] h = tt
mark_row-AreDistinct now k (row ∷ rows) (a, h) =
    one (nat_eq row.id k) (mark_row-AreDistinct now k rows h)
  where
    one :
        (b : Bool)
        → AreDistinct (mark_row now k rows)
        → AreDistinct
            ((if b then record row { published_at = some now } else row) ∷ mark_row now k rows)
    one true rest = (mark_row-IsApart row.id now k rows a, rest)
    one false rest = (mark_row-IsApart row.id now k rows a, rest)
