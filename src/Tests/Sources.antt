-- ===== src/Tests/Sources.antt =====
-- A source identifier, at a concrete text.
use libholmes_horace.SourceId
use libholmes_horace.Common.{ℕ, ◌≡◌, ◌↔◌, List, [], ◌∷◌, ok}

-- "a-1"
abbrev host : List ℕ
host = 0x61 ∷ 0x2d ∷ 0x31 ∷ []

source_id_iff_example :
    (SourceId.source_id host ≡ ok (record { id = host })) ↔ SourceId.Accepted.IsSourceId host
source_id_iff_example = SourceId.Accepted.source_id_iff host
