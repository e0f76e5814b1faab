-- ===== src/Query/Symbol/Exact.antt =====
-- What `get_symbol` reports, against the tables.
use repolayer.Prelude.{◌≡◌}
use repolayer.Prelude.Tests.{nat_eq}
use repolayer.Prelude.Lists.{◌∈◌}
use repolayer.Prelude.Text.{Text, text_eq, path_eq}
use repolayer.Graph.Store.{Store}
use repolayer.Graph.Model.{Edge, calls}

-- the two ends of a stored call
abbrev pub IsCall : Store → Edge → Type 0
IsCall s e = (e ∈ s.edges) × (e.kind ≡ calls)
