-- ===== src/Db/Laws.antt =====
-- Laws of the genome table: a status write seen through a lookup by hash, and what it leaves alone.
use neuro_forge.Base.{
  Bool, true, Option, none, ==_refl, refl, ◌++◌, String, ◌≡◌, List, [], ◌∷◌, some, arith, ◌==◌,
  eq_iff, if◌then◌else◌,
}
use mathlib.Core.Option
use neuro_forge.Genomes.{PromotionStatus}
use neuro_forge.Db.Tables.{GenomeRecord, PromotionRecord, Session}
use neuro_forge.Db.{
  find_genome, write_status, latest, advance, advance_status, review_from, set_genome_status,
  get_genome_record, save_promotion_decision, latest_promotion_decision,
}

abbrev pub with_status : PromotionStatus → GenomeRecord → GenomeRecord
with_status st g = record g { status = st }

pub find-write_status :
    (h k : String) (st : PromotionStatus) (gs : List GenomeRecord)
    → find_genome k (write_status h st gs)
      ≡ (if h == k then Option.map (with_status st) (find_genome k gs) else find_genome k gs)
unfolding find_genome write_status
find-write_status h k st [] = ground arith
find-write_status h k st (g ∷ gs) =
    ground (arith, eq_iff h k, eq_iff g.hash h, eq_iff g.hash k, find-write_status h k st gs)

pub find_genome-hash :
    (h : String) (gs : List GenomeRecord) {g : GenomeRecord}
    → find_genome h gs ≡ some g
    → g.hash ≡ h
unfolding find_genome
find_genome-hash h [] {g} e = cc
find_genome-hash h (x ∷ gs) {g} e = ground (arith, eq_iff x.hash h, find_genome-hash h gs {g = g})

-- The row that was inserted last is the latest, if it passes the test.
latest-append :
    {A : Type 0} (p : A → Bool) (xs : List A) (x : A)
    → p x ≡ true
    → latest p (xs ++ x ∷ []) ≡ some x
unfolding latest
latest-append p [] x e = rw e refl
latest-append p (y ∷ xs) x e = rw (latest-append p xs x e) refl

-- A decision that is saved is the latest of its genome.
pub latest-save_promotion_decision :
    (s : Session) (d : PromotionRecord)
    → latest_promotion_decision (save_promotion_decision s d) d.genome_hash ≡ some d
unfolding save_promotion_decision advance_status set_genome_status
latest-save_promotion_decision s d =
    by_genome (get_genome_record (record s { decisions = s.decisions ++ d ∷ [] }) d.genome_hash)
  where
    after : Option GenomeRecord → Session
    after o = elim o [
      | none ↦ record s { decisions = s.decisions ++ d ∷ [] }
      | some g ↦
          set_genome_status (record s { decisions = s.decisions ++ d ∷ [] }) d.genome_hash
            (advance (review_from d.approved) d.next_status g.status)
    ]

    by_genome :
        (o : Option GenomeRecord) → latest_promotion_decision (after o) d.genome_hash ≡ some d
    by_genome none = latest-append _ s.decisions d (==_refl d.genome_hash)
    by_genome (some g) = latest-append _ s.decisions d (==_refl d.genome_hash)
