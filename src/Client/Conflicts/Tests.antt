-- ===== src/Client/Conflicts/Tests.antt =====
-- Runs over a store that keeps its rows and a host that takes what it is given.
use project_apex.Prelude.{◌≡◌, refl, true, some, [], ◌∷◌, ◌++◌, Text, codes}
use project_apex.Prelude.Int.{pos}
use project_apex.Client.Ports.{err, ok, PendingEdit, clean, Ports, not_found}
use project_apex.Prelude.Utf8.{lines, strip_prefix}
use project_apex.Client.Conflicts.{keep_local, resolve, carries_markers, any_line}
use project_apex.Client.Conflicts.Settled.{Answers, Settled, resolve_conflict-Answers}

abbrev edit : PendingEdit
edit = record {
  content = codes "mine";
  base = some (codes "base", codes "b1");
  mergeable = true;
  retained_at = pos 0;
}

-- The world is what was written last.
abbrev ports : Ports Text
ports = record {
  pending_edits = λ w. ok ((codes "a", edit) ∷ []);
  forget_pending = λ path w. (w, ok tt);
  retain_edit = λ path e w. (w, ok tt);
  read_file = λ path w. (w, err not_found);
  write_file = λ path content base w. (content, ok tt);
  merge = λ base local remote. clean local;
}

resolve_conflict-Answers_example :
    Answers ports
      (Settled ports (codes "a") keep_local (some (codes "b2")) [])
      []
      (resolve ports (codes "a") keep_local (some (codes "b2")) [])
resolve_conflict-Answers_example =
    resolve_conflict-Answers ports (codes "a") keep_local (some (codes "b2")) []

marked : carries_markers (codes "<<<<<<< a" ++ 10 ∷ codes ">>>>>>> b") ≡ true
unfolding carries_markers any_line lines strip_prefix
marked = refl
