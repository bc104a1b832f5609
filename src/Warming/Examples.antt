-- ===== src/Warming/Examples.antt =====
-- A profile with a workflow of no steps, in the small world of Replay/Lab.
use deconstruct.Base.{lookup, ℕ, ◌*◌, ◌^◌, codes, true, false, some, [], ◌≡◌, refl}
use deconstruct.Base.Decimal.{pos, negsuc}
use deconstruct.Store.{done, failed}
use deconstruct.Replay.Lab.{lab, flaky}
use deconstruct.Workflow.Asserts.{Services}
use deconstruct.Warming.{
  AuthProfile, Sources, duration_bits, interval_of, run_profile, profile_due, waited,
}
use deconstruct.Warming.Intervals.{SpacedOut, run_profile-SpacedOut}

abbrev services : Services ℕ
services = record {
  replay = lab flaky;
  blobs = true;
  get_replay_run = λ id w. failed (codes "replay run not found");
  insert_workflow_run = λ row w. (done tt, w);
  print_value = λ v. [];
  quote = λ t. t;
  sort = λ ts. ts;
}

abbrev sources : Sources ℕ
sources = record {
  services = services;
  open_bundle = some (λ id w. done []);
  get_workflow = λ id w.
      done (record { id = id; name = []; input_schema = []; output_schema = []; steps = [] });
}

abbrev profile : AuthProfile
profile = record {
  id = codes "p";
  secret_bundle_id = codes "b";
  interactive_login_required = false;
  cookie_warming =
      some (record { enabled = true; workflow_id = codes "w"; interval_seconds = pos 60 });
}

one_minute : interval_of (pos 60) ≡ 60 * 10 ^ 9
unfolding interval_of duration_bits
one_minute = refl

negative_interval : interval_of (negsuc 0) ≡ 15 * 60 * 10 ^ 9
unfolding interval_of duration_bits
negative_interval = refl

due_at_first : profile_due [] profile 5 ≡ true
unfolding profile_due waited lookup
due_at_first = refl

run_profile-SpacedOut_example :
    SpacedOut sources profile 5 []
      (run_profile sources profile 5 [] 0).0
      (run_profile sources profile 5 [] 0).1
run_profile-SpacedOut_example = run_profile-SpacedOut sources profile 5 [] 0
