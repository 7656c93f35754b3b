-- ===== src/Db/Versions/Examples.antt =====
-- Two experiments of an application, the first of which is extended.
use neuro_forge.Base.{none, some, [], false, refl}
use neuro_forge.Db.{StoredConfig, Session, list_genomes_for_system}
use neuro_forge.Db.Experiments.{
  save_experiment, write_experiment, next_candidate_version, after_genomes, after_experiments,
  resume_experiment, ensure_no_clash, candidate_version_clash, first_clash, falls_inside, extended,
}
use neuro_forge.Db.Versions.{AllApart}
use neuro_forge.Db.Versions.Written.{numbered}
use neuro_forge.Db.Versions.Reached.{Step, Reach, Reach-AllApart}

abbrev nothing : Session
nothing = record { genomes = []; experiments = []; decisions = []; canaries = []; approvals = [] }

abbrev config : StoredConfig
config = record {
  domain_name = "forge-support";
  baseline_hash = some "v1";
  first_candidate_version = none;
  max_candidates = 200;
  max_batches = 20;
  batch_size = 16;
  dataset_id = none;
}

abbrev one : Session
one = save_experiment nothing "e1" "support" (numbered nothing "support" config) none "created"

-- The second one starts at 202; the first may have 150 candidates.
abbrev two : Session
two = save_experiment one "e2" "support" (numbered one "support" config) none "created"

abbrev three : Session
three =
    save_experiment two "e1" "support" (extended (numbered nothing "support" config) 50 4 100) none
      "running"

Reach-AllApart_example : AllApart three.experiments
unfolding save_experiment write_experiment next_candidate_version list_genomes_for_system
    after_genomes after_experiments resume_experiment ensure_no_clash candidate_version_clash
    first_clash falls_inside extended
Reach-AllApart_example = Reach-AllApart {first = nothing} {s = three} refl (
    Reach.next
      (Reach.next (Reach.next Reach.start (Step.creates nothing "e1" "support" config refl))
        (Step.creates one "e2" "support" config refl))
      (Step.resumes two false "e1" 50 4 100 refl))
