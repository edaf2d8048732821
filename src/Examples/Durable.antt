-- ===== src/Examples/Durable.antt =====
-- The durable stores over a bucket whose byte strings are the records themselves.
use qoltanba.Prelude.{
  ◌≡◌, refl, Option, some, List, [], ◌∷◌, codes, Bool, true, false, not, is_empty, Text,
}
use qoltanba.Challenge.Store.{Challenge}
use qoltanba.Jobs.Job.{Job}
use qoltanba.Jobs.Manager.{new_job}
use qoltanba.Durable.Refinement.{run}
use qoltanba.Durable.Challenges as Challenges
use qoltanba.Durable.Challenges.{challenges_refine}
use qoltanba.Durable.Jobs as Jobs
use qoltanba.Durable.Jobs.{jobs_refine}

abbrev as_bytes : {V : Type 0} → V → Option V
as_bytes v = some v

abbrev not_blank : {V : Type 0} → Text → V → Bool
not_blank k v = not (is_empty k)

abbrev challenge : Challenge
challenge = record {
  id = codes "c";
  nonce = codes "n";
  purpose = [];
  meta = [];
  created_at = 0;
  expires_at = 10;
  used = false;
}

-- a challenge is issued, used, used again, and reaped
abbrev challenge_calls : List Challenges.Op
challenge_calls =
    Challenges.creating challenge
    ∷ Challenges.consuming (codes "c")
    ∷ Challenges.consuming (codes "c")
    ∷ Challenges.reaping 20
    ∷ []

challenges_refine_example :
    run (Challenges.bolt_step as_bytes as_bytes not_blank) challenge_calls []
    ≡ run Challenges.mem_step challenge_calls []
challenges_refine_example =
    challenges_refine as_bytes as_bytes not_blank challenge_calls [] []
      (
        ((challenge, refl, refl, refl), (record challenge { used = true }, refl, refl, refl)),
        (tt, (tt, (tt, tt))),
      )
      (tt, tt, tt)

abbrev job : Job
job = new_job (codes "j") (codes "verify") (codes "{}") (codes "url") 10

-- a job is stored, refused under the same id, read, and deleted
abbrev job_calls : List Jobs.Op
job_calls =
    Jobs.creating job
    ∷ Jobs.creating job
    ∷ Jobs.getting (codes "j")
    ∷ Jobs.deleting (codes "j")
    ∷ Jobs.getting (codes "j")
    ∷ []

jobs_refine_example :
    run (Jobs.bolt_step as_bytes as_bytes not_blank) job_calls [] ≡ run Jobs.mem_step job_calls []
jobs_refine_example =
    jobs_refine as_bytes as_bytes not_blank job_calls [] []
      ((job, refl, refl, refl), ((job, refl, refl, refl), (tt, (tt, (tt, tt))))) (tt, tt)
