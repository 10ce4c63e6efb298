-- ===== src/Events/Apply/Batches.antt =====
-- The pages of created records: where the second pass divides them makes no difference.
use mathlib.Core.Path.{subst, fun_ext}
use hot_mem.Prelude.{
  ℕ, ◌+◌, String, ◌≡◌, refl, sym, ap, ◌∙◌, ◌⊎◌, inl, inr, Bool, true, false, ◌||◌, not, some, List,
  [], ◌∷◌, ◌++◌, if◌then◌else◌, ◌=ₛ◌, eq_iff, Bool-cases, arith, ok, ◌>>=◌, raise_if-eq-ok,
  Result-cases, >>=-eq-ok, ok-injective,
}
use hot_mem.Delta.Store.{Row}
use hot_mem.Events.State.{Map, put_at, Mark}
use hot_mem.Events.Target.{
  Driver, unbound, Target, stamped, has_row, is_ignored, insert_ignore, insert_many_ignore,
}
use hot_mem.Events.Apply.{Pending, present_marks, page_rows, flush_page}

-- Inserting one list after another is inserting both.
insert_many_ignore-append :
    (d : Driver) (xs ys : List Row) (rows : List Row)
    → insert_many_ignore d (xs ++ ys) rows
      ≡ insert_many_ignore d xs rows >>= λ (r, n).
          insert_many_ignore d ys r >>= λ (s, m). ok (s, n + m)
unfolding insert_many_ignore
insert_many_ignore-append d [] ys rows = ground arith
insert_many_ignore-append d (x ∷ xs) ys rows =
    ground (arith, insert_many_ignore-append d xs ys (insert_ignore d x rows))

has_row-append :
    (k : String) (rows : List Row) (new : Row)
    → has_row k (rows ++ new ∷ []) ≡ (has_row k rows || new.id =ₛ k)
has_row-append k [] new = ground arith
has_row-append k (r ∷ rows) new = ground (arith, has_row-append k rows new)

stamped_id : (d : Driver) (r : Row) → (stamped d r).id ≡ r.id
stamped_id d r = ground arith

or_true : (b : Bool) → (b || true) ≡ true
or_true true = refl
or_true false = refl

or_false : (b : Bool) → (b || false) ≡ b
or_false true = refl
or_false false = refl

abbrev marked : Pending → List Row → Map Mark → Map Mark
marked x r m = if has_row x.row.id r then put_at x.row.id x.mark m else m

-- A record is there after an insertion if it was before, or if it is the one inserted.
has_row-insert_ignore :
    (d : Driver) (k : String) (new : Row) (rows : List Row)
    → (has_row k (insert_ignore d new rows) ≡ has_row k rows)
      ⊎ ((new.id ≡ k) × (has_row k (insert_ignore d new rows) ≡ true))
unfolding insert_ignore
has_row-insert_ignore d k new rows = elim (Bool-cases (is_ignored new rows)) [
  | inl skipped ↦ inl (rw skipped refl)
  | inr taken ↦
      let at =
        has_row-append k rows (stamped d new)
        ∙ ap (λ id. has_row k rows || id =ₛ k) (stamped_id d new) in
      elim (Bool-cases (new.id =ₛ k)) [
        | inl same ↦
            inr ((eq_iff new.id k).0 same, rw taken (at ∙ rw same (or_true (has_row k rows))))
        | inr other ↦ inl (rw taken (at ∙ rw other (or_false (has_row k rows))))
      ]
]

-- The page has a record with the key.
abbrev named : String → List Pending → Bool
named k page = has_row k (page_rows page)

-- A record that the insertions of a page bring in is one of the page's.
insert_many_ignore-has_row :
    (d : Driver) (k : String) (page : List Pending) (rows rows' : List Row) (n : ℕ)
    → insert_many_ignore d (page_rows page) rows ≡ ok (rows', n)
    → (has_row k rows' ≡ has_row k rows) ⊎ ((named k page ≡ true) × (has_row k rows' ≡ true))
unfolding insert_many_ignore
insert_many_ignore-has_row d k [] rows rows' n h =
    inl (ap (λ (x : List Row × ℕ). has_row k x.0) (ok-injective h))
insert_many_ignore-has_row d k (x ∷ page) rows rows' n h =
    let (bound, h1) = raise_if-eq-ok (not (d.binds x.row)) unbound _ h in
    let ((later, m), inserted, h2) =
      >>=-eq-ok (insert_many_ignore d (page_rows page) (insert_ignore d x.row rows)) _ h1 in
    let same : rows' ≡ later = ap (λ (x : List Row × ℕ). x.0) (ok-injective h2) in
    elim (insert_many_ignore-has_row d k page (insert_ignore d x.row rows) later m inserted) [
      | inr (among, there) ↦ inr (rw among (or_true (x.row.id =ₛ k)), rw same there)
      | inl kept ↦ elim (has_row-insert_ignore d k x.row rows) [
        | inl before ↦ inl (ap (has_row k) same ∙ kept ∙ before)
        | inr (is, there) ↦
            inr (rw ((eq_iff x.row.id k).1 is) refl, ap (has_row k) same ∙ kept ∙ there)
      ]
    ]

marked-same :
    (k : String) (x : Pending) (r : List Row) (m m' : Map Mark)
    → has_row k r ≡ true
    → x.row.id ≡ k
    → marked x r m k ≡ marked x r m' k
marked-same k x r m m' there same =
    let there' : has_row x.row.id r ≡ true = rw same there in
    rw (there', (eq_iff x.row.id k).1 same) refl

put_if-agree :
    (k id : String) (w : Mark) (b b' : Bool) (m m' : Map Mark)
    → (b ≡ b') ⊎ ((id =ₛ k) ≡ false)
    → m k ≡ m' k
    → (if b then put_at id w m else m) k ≡ (if b' then put_at id w m' else m') k
put_if-agree k id w true true m m' h marks = ap (λ v. if id =ₛ k then some w else v) marks
put_if-agree k id w false false m m' h marks = marks
put_if-agree k id w true false m m' (inl e) marks = cc e
put_if-agree k id w true false m m' (inr other) marks = rw other marks
put_if-agree k id w false true m m' (inl e) marks = cc e
put_if-agree k id w false true m m' (inr other) marks = rw other marks

marked-agree :
    (k : String) (x : Pending) (r r' : List Row) (m m' : Map Mark)
    → has_row k r ≡ has_row k r'
    → m k ≡ m' k
    → marked x r m k ≡ marked x r' m' k
marked-agree k x r r' m m' rows marks =
    put_if-agree k x.row.id x.mark (has_row x.row.id r) (has_row x.row.id r') m m'
      (elim (Bool-cases (x.row.id =ₛ k)) [
        | inl same ↦
            inl (subst (λ j. has_row j r ≡ has_row j r') (sym ((eq_iff x.row.id k).0 same)) rows)
        | inr other ↦ inr other
      ])
      marks

-- The watermark of a key depends on the rows and on the watermarks before by that key only.
present_marks-agree :
    (k : String) (page : List Pending) (r r' : List Row) (m m' : Map Mark)
    → has_row k r ≡ has_row k r'
    → m k ≡ m' k
    → present_marks r page m k ≡ present_marks r' page m' k
unfolding present_marks
present_marks-agree k [] r r' m m' rows marks = marks
present_marks-agree k (x ∷ page) r r' m m' rows marks =
    present_marks-agree k page r r' _ _ rows (marked-agree k x r r' m m' rows marks)

-- A page with a present record of the key decides its watermark.
present_marks-named :
    (k : String) (page : List Pending) (r : List Row) (m m' : Map Mark)
    → has_row k r ≡ true
    → named k page ≡ true
    → present_marks r page m k ≡ present_marks r page m' k
unfolding present_marks
present_marks-named k [] r m m' there among = cc
present_marks-named k (x ∷ page) r m m' there among = elim (Bool-cases (x.row.id =ₛ k)) [
  | inl same ↦
      present_marks-agree k page r r _ _ refl
        (marked-same k x r m m' there ((eq_iff x.row.id k).0 same))
  | inr other ↦ present_marks-named k page r _ _ there (rw other at among)
]

present_marks-append :
    (r : List Row) (xs ys : List Pending) (m : Map Mark)
    → present_marks r (xs ++ ys) m ≡ present_marks r ys (present_marks r xs m)
unfolding present_marks
present_marks-append r [] ys m = refl
present_marks-append r (x ∷ xs) ys m = present_marks-append r xs ys (marked x r m)

page_rows-append : (xs ys : List Pending) → page_rows (xs ++ ys) ≡ page_rows xs ++ page_rows ys
page_rows-append [] ys = refl
page_rows-append (x ∷ xs) ys = ap (λ l. x.row ∷ l) (page_rows-append xs ys)

-- The watermarks of a divided page.
present_marks-divided :
    (d : Driver) (xs ys : List Pending) (r r' : List Row) (n : ℕ) (m : Map Mark) (k : String)
    → insert_many_ignore d (page_rows ys) r ≡ ok (r', n)
    → present_marks r' ys (present_marks r' xs m) k ≡ present_marks r' ys (present_marks r xs m) k
present_marks-divided d xs ys r r' n m k h = elim (insert_many_ignore-has_row d k ys r r' n h) [
  | inl kept ↦
      present_marks-agree k ys r' r' (present_marks r' xs m) (present_marks r xs m) refl
        (present_marks-agree k xs r' r m m kept refl)
  | inr (among, there) ↦
      present_marks-named k ys r' (present_marks r' xs m) (present_marks r xs m) there among
]

-- Flushing a page of created records has the same outcome, and inserts as many records, as flushing
-- its first part and then the rest: the tables, the watermarks and the exception that is raised do
-- not depend on the size of a batch.
pub flush_page-append :
    (d : Driver) (xs ys : List Pending) (t : Target)
    → flush_page d (xs ++ ys) t
      ≡ flush_page d xs t >>= λ (u, n). flush_page d ys u >>= λ (v, m). ok (v, n + m)
unfolding flush_page
flush_page-append d xs ys t =
    let both =
      ap (λ l. insert_many_ignore d l t.rows) (page_rows-append xs ys)
      ∙ insert_many_ignore-append d (page_rows xs) (page_rows ys) t.rows in
    elim (Result-cases (insert_many_ignore d (page_rows xs) t.rows)) [
      | inl (e, failed) ↦ let whole = rw failed at both in rw (whole, failed) refl
      | inr ((r, n), first) ↦ elim (Result-cases (insert_many_ignore d (page_rows ys) r)) [
        | inl (e, failed) ↦
            let whole = rw (first, failed) at both in rw (whole, first) (rw failed refl)
        | inr ((r', m), second) ↦
            let whole = rw (first, second) at both in
            let marks = fun_ext λ k.
              ap (λ f. f k) (present_marks-append r' xs ys t.marks)
              ∙ present_marks-divided d xs ys r r' m t.marks k second in
            rw (whole, first)
              (rw second (ap (λ w. ok (record t { rows = r'; marks = w }, n + m)) marks))
      ]
    ]
