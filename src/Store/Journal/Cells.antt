-- ===== src/Store/Journal/Cells.antt =====
-- What the journal does to one job: its cell in the map, and the operations on it.
use run_beacon.Base.{
  ℕ, ◌≤◌, ◌≡◌, refl, sym, ap, ◌∙◌, inl, inr, List, [], ◌∷◌, ◌++◌, Option, none, some, leb, arith,
  Bool-cases, if◌then◌else◌,
}
use run_beacon.Types.{JobRecord}

pub data Op : Type 0 where
  del : Op
  put : JobRecord → Op

-- A job of the journal, where a job may be there.
abbrev pub put_cell : Option JobRecord → JobRecord → Option JobRecord
put_cell none j = some j
put_cell (some c) j = if leb c.version j.version then some j else some c

abbrev pub run_op : Op → Option JobRecord → Option JobRecord
run_op del c = none
run_op (put j) c = put_cell c j

abbrev pub run_ops : List Op → Option JobRecord → Option JobRecord
run_ops [] c = c
run_ops (o ∷ os) c = run_ops os (run_op o c)

pub run_ops-append :
    (os ps : List Op) (c : Option JobRecord) → run_ops (os ++ ps) c ≡ run_ops ps (run_ops os c)
run_ops-append [] ps c = refl
run_ops-append (o ∷ os) ps c = run_ops-append os ps (run_op o c)

-- No job, or one whose version is not above a version.
abbrev pub IsBelow : Option JobRecord → ℕ → Type 0
IsBelow none v = Unit {0}
IsBelow (some c) v = c.version ≤ v

-- The operations of the journal leave the cell of the snapshot as it is, and give way to a newer job.
pub record Settled (os : List Op) (c : Option JobRecord) : Type 0 where
  pub same : run_ops os c ≡ c
  pub yields : (j : JobRecord) → IsBelow c j.version → IsBelow (run_ops os (some j)) j.version

-- How a save changes a cell, and the operations that it writes.
pub data Update (c : Option JobRecord) : List Op → Option JobRecord → Type 0 where
  keep : {c' : Option JobRecord} → c' ≡ c → Update c [] c'
  change :
      (j : JobRecord) {c' : Option JobRecord}
      → IsBelow c j.version
      → c' ≡ some j
      → Update c (put j ∷ []) c'
  drop : {c' : Option JobRecord} → c' ≡ none → Update c (del ∷ []) c'

put_below : (c : Option JobRecord) (j : JobRecord) → IsBelow c j.version → put_cell c j ≡ some j
put_below none j h = refl
put_below (some c) j h = ground arith

IsBelow-put_cell :
    (c : Option JobRecord) (j : JobRecord) (v : ℕ)
    → IsBelow c v
    → j.version ≤ v
    → IsBelow (put_cell c j) v
IsBelow-put_cell none j v h l = l
IsBelow-put_cell (some c) j v h l = elim (Bool-cases (leb c.version j.version)) [
  | inl t ↦ rw t l
  | inr f ↦ rw f h
]

IsBelow-trans : (c : Option JobRecord) (v w : ℕ) → IsBelow c v → v ≤ w → IsBelow c w
IsBelow-trans none v w h l = tt
IsBelow-trans (some c) v w h l = omega arith

pub Settled-nil : (c : Option JobRecord) → Settled [] c
Settled-nil c = record { same = refl; yields = λ j h. omega arith }

-- After the operations of a save, whether the snapshot is the old one or the new one, the cell is the
-- new one.
pub crashed :
    {os ps : List Op} {c c' : Option JobRecord}
    → Settled os c
    → Update c ps c'
    → run_ops (os ++ ps) c ≡ c'
crashed {os} {ps} {c} s (keep e) = run_ops-append os ps c ∙ s.same ∙ sym e
crashed {os} {ps} {c} s (change j b e) =
    run_ops-append os (put j ∷ []) c ∙ ap (λ x. put_cell x j) s.same ∙ put_below c j b ∙ sym e
crashed {os} {ps} {c} s (drop e) = run_ops-append os (del ∷ []) c ∙ sym e

pub Settled-Update :
    {os ps : List Op} {c c' : Option JobRecord}
    → Settled os c
    → Update c ps c'
    → Settled (os ++ ps) c'
Settled-Update {os} {ps} {c} {c'} s (keep e) = record {
  same = run_ops-append os [] c' ∙ ap (run_ops os) e ∙ s.same ∙ sym e;
  yields = λ j h. rw (run_ops-append os [] (some j)) (s.yields j (rw e at h));
}
Settled-Update {os} {ps} {c} {c'} s (change j b e) = record {
  same =
      rw (e, run_ops-append os (put j ∷ []) (some j))
        (put_below (run_ops os (some j)) j (s.yields j b));
  yields = λ j' h.
      let above : j.version ≤ j'.version = rw e at h in
      rw (run_ops-append os (put j ∷ []) (some j')) (
        IsBelow-put_cell (run_ops os (some j')) j j'.version
          (s.yields j' (IsBelow-trans c j.version j'.version b above)) above);
}
Settled-Update {os} {ps} {c} {c'} s (drop e) = record {
  same = rw e (run_ops-append os (del ∷ []) none);
  yields = λ j' h. rw (run_ops-append os (del ∷ []) (some j')) tt;
}
