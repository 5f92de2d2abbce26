-- ===== src/Examples/Committing.antt =====
-- Inputs for the theorem about kube-client/src/api/entry.rs: a new object, which the API accepts. The
-- world is `Unit`.
use kube.Prelude.{refl, false, none, some, [], ok}
use kube.Core.Resource.{ObjectMeta}
use kube.Core.PatchParams.{PostParams}
use kube.Entry.{MetaMut, Api, OccupiedEntry, insert, commit}
use kube.Entry.Commits.{logged, Allowed, commit-Allowed}
use kube.Examples.Watching.{pods, pod}

abbrev meta_mut : MetaMut pods
meta_mut = record { with_meta = λ m obj. m }

abbrev accepting : Api ObjectMeta
accepting = record {
  World = Unit {0};
  namespace = some "b";
  get_opt = λ name w. (ok none, w);
  create = λ pp object w. (ok object, w);
  replace = λ name pp object w. (ok object, w);
}

abbrev saving : PostParams
saving = record { dry_run = false; field_manager = none }

abbrev made : OccupiedEntry ObjectMeta
made = insert "a" (record (pod "1") { namespace = none })

commit-Allowed_example :
    Allowed meta_mut accepting made saving []
      (commit meta_mut (logged accepting) made saving (tt, []))
commit-Allowed_example = commit-Allowed meta_mut accepting (λ m obj. refl) made saving tt []
