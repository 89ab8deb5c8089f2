-- ===== src/Bolt/Handshake.antt =====
-- Which protocol versions are offered (neo4j/_sync/io/_bolt.py), and how versions are written
-- (`Version` in neo4j/api.py).
pub mod Offers
mod Tests
use neo4j_python_driver.Base.{
  ℕ, ◌+◌, ◌-◌, ◌%◌, List, [], ◌∷◌, ◌++◌, Bool, true, false, ◌&&◌, ◌||◌, Option, none, some, leb,
  ltb, ◌==◌, if◌then◌else◌, length, replicate,
}

abbrev pub Version : Type 0
Version = ℕ × ℕ

-- `Version(major, [highest, lowest])`
pub record Range : Type 0 where
  pub major : ℕ
  pub highest : ℕ
  pub lowest : ℕ

-- The keys of `handlers`, from the highest version down.
abbrev pub supported_versions : List Version
supported_versions =
    (5, 4) ∷ (5, 3) ∷ (5, 2) ∷ (5, 1) ∷ (5, 0) ∷ (4, 4) ∷ (4, 3) ∷ (4, 2) ∷ (4, 1) ∷ (3, 0) ∷ []

-- `version >= first_with_range_support`, which is 4.2.
abbrev pub has_range_support : Version → Bool
has_range_support (major, minor) = ltb 4 major || ((major == 4) && leb 2 minor)

-- The version is the next one below the last range.
abbrev pub continues : Version → List Range → Bool
continues v [] = false
continues (major, minor) (r ∷ rs) =
    has_range_support (major, minor) && (r.major == major) && (r.lowest == minor + 1)

abbrev pub extend_last : Version → List Range → List Range
extend_last v [] = []
extend_last (major, minor) (r ∷ rs) = record r { lowest = minor } ∷ rs

abbrev pub range_of : Version → Range
range_of (major, minor) = record { major = major; highest = minor; lowest = minor }

-- The loop of `version_list`, with the result from its end.
unfoldable pub offer : List Version → List Range → List Range
offer [] result = result
offer (v ∷ vs) result =
    let extended = offer vs (extend_last v result) in
    let appended = range_of v ∷ result in
    let further = offer vs appended in
    if continues v result then extended else if length appended == 4 then appended else further

abbrev pub reversed : List Range → List Range → List Range
reversed [] done = done
reversed (r ∷ rs) done = reversed rs (r ∷ done)

unfoldable pub version_list : List Version → List Range
version_list versions = reversed (offer versions []) []

-- `Version.to_bytes`, with a range or without.
unfoldable pub range_bytes : Range → List ℕ
range_bytes r = 0 ∷ (r.highest - r.lowest) % 256 ∷ r.highest % 256 ∷ r.major % 256 ∷ []

unfoldable pub version_bytes : Version → List ℕ
version_bytes (major, minor) = 0 ∷ 0 ∷ minor % 256 ∷ major % 256 ∷ []

-- `Version.from_bytes`, and `none` for a `ValueError`.
unfoldable pub from_bytes : List ℕ → Option Version
from_bytes (a ∷ b ∷ c ∷ d ∷ []) = if (a == 0) && (b == 0) then some (d, c) else none
from_bytes [] = none
from_bytes (a ∷ []) = none
from_bytes (a ∷ b ∷ []) = none
from_bytes (a ∷ b ∷ c ∷ []) = none
from_bytes (a ∷ b ∷ c ∷ d ∷ e ∷ l) = none

-- `get_handshake`: 16 bytes.
abbrev pub all_bytes : List Range → List ℕ
all_bytes [] = []
all_bytes (r ∷ rs) = range_bytes r ++ all_bytes rs

abbrev pub ljust : ℕ → List ℕ → List ℕ
ljust n bs = bs ++ replicate (n - length bs) 0

unfoldable pub get_handshake : List ℕ
get_handshake = ljust 16 (all_bytes (version_list supported_versions))

-- The class that `open` takes for the version that the server chose, and `none` for the
-- `BoltHandshakeError`.
pub data BoltClass : Type 0 where
  bolt3 bolt4x1 bolt4x2 bolt4x3 bolt4x4 bolt5x0 bolt5x1 bolt5x2 bolt5x3 bolt5x4 : BoltClass

abbrev pub is_version : Version → ℕ → ℕ → Bool
is_version (major, minor) a b = (major == a) && (minor == b)

unfoldable pub bolt_class : Version → Option BoltClass
bolt_class v =
    if is_version v 5 4
    then some bolt5x4
    else if is_version v 5 3
    then some bolt5x3
    else if is_version v 5 2
    then some bolt5x2
    else if is_version v 5 1
    then some bolt5x1
    else if is_version v 5 0
    then some bolt5x0
    else if is_version v 4 4
    then some bolt4x4
    else if is_version v 4 3
    then some bolt4x3
    else if is_version v 4 2
    then some bolt4x2
    else if is_version v 4 1
    then some bolt4x1
    else if is_version v 3 0
    then some bolt3
    else none
