-- ===== src/Compose/Trace.antt =====
-- The calls of the engine that code makes one after another, and whether there was no error.
use compose_cli.Prelude.{Bool, true, false, ◌&&◌, List, ◌++◌}

abbrev pub Trace : Type 0 → Type 0
Trace Call = List Call × Bool

-- Both are done, whether or not the first has an error.
abbrev pub both : {Call : Type 0} → Trace Call → Trace Call → Trace Call
both (calls, good) (more, good_more) = (calls ++ more, good && good_more)

-- The second part is done if the first has no error.
abbrev pub and_then : {Call : Type 0} → Trace Call → Trace Call → Trace Call
and_then (calls, true) rest = (calls ++ rest.0, rest.1)
and_then (calls, false) rest = (calls, false)
