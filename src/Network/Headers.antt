-- ===== src/Network/Headers.antt =====
-- internal/network/privacy.go and metadata.go: the headers of a request that leaves the host. A
-- header's name is the list of its bytes, and an http.Header the list of its entries.
pub mod Privacy
use digital_ocean_bot.Prelude.{
  ℕ, ◌+◌, ◌-◌, String, Bool, true, false, ◌&&◌, ◌||◌, List, [], ◌∷◌, map, leb, ◌==◌, if◌then◌else◌,
}
use digital_ocean_bot.Text.{codes, lower_code}

abbrev pub Name : Type 0
Name = List ℕ

abbrev pub Header : Type 0
Header = List (Name × List String)

unfoldable pub same_name : Name → Name → Bool
same_name [] [] = true
same_name (a ∷ s) (b ∷ t) = a == b && same_name s t
same_name _ _ = false

-- The bytes of a token: what net/textproto takes for a valid field name.
abbrev pub is_token : ℕ → Bool
is_token c =
    (leb 48 c && leb c 57)
    || (leb 65 c && leb c 90)
    || (leb 94 c && leb c 122)
    || c == 33
    || (leb 35 c && leb c 39)
    || c == 42
    || c == 43
    || c == 45
    || c == 46
    || c == 124
    || c == 126

unfoldable pub all_tokens : Name → Bool
all_tokens [] = true
all_tokens (c ∷ s) = is_token c && all_tokens s

abbrev pub upper_byte : ℕ → ℕ
upper_byte c = if leb 97 c && leb c 122 then c - 32 else c

abbrev pub lower_byte : ℕ → ℕ
lower_byte c = if leb 65 c && leb c 90 then c + 32 else c

-- A letter is a capital at the start and after each hyphen, and small elsewhere.
unfoldable pub recase : Bool → Name → Name
recase first [] = []
recase first (c ∷ s) = (if first then upper_byte c else lower_byte c) ∷ recase (c == 45) s

-- textproto.CanonicalMIMEHeaderKey
unfoldable pub canonical : Name → Name
unfolding all_tokens recase
canonical s = if all_tokens s then recase true s else s

-- Header.Del and Header.Set
unfoldable pub remove : Name → Header → Header
unfolding same_name
remove n [] = []
remove n ((m, v) ∷ h) = if same_name m n then remove n h else (m, v) ∷ remove n h

abbrev pub del : Name → Header → Header
del n h = remove (canonical n) h

abbrev pub set_header : Name → String → Header → Header
set_header n v h = (canonical n, v ∷ []) ∷ del n h

abbrev pub forbidden : List Name
forbidden = map codes (
    "forwarded" ∷ "via" ∷ "x-forwarded-for" ∷ "x-forwarded-host" ∷ "x-forwarded-proto" ∷ "x-real-ip"
    ∷ "x-debug" ∷ [])

unfoldable pub member : Name → List Name → Bool
unfolding same_name
member n [] = false
member n (m ∷ ms) = same_name n m || member n ms

unfoldable pub is_blocked : Name → Bool
unfolding member
is_blocked n = member (map lower_byte n) forbidden

unfoldable pub has_forbidden_outbound_header : Header → Bool
unfolding is_blocked
has_forbidden_outbound_header [] = false
has_forbidden_outbound_header ((n, v) ∷ h) = is_blocked n || has_forbidden_outbound_header h

-- `for name := range clone.Header { if blocked { clone.Header.Del(name) } }`
unfoldable pub strip_names : Header → Header → Header
unfolding is_blocked
strip_names [] clone = clone
strip_names ((n, v) ∷ names) clone = strip_names names (if is_blocked n then del n clone else clone)

-- PrivacyTransport.RoundTrip, up to the request that it hands on.
unfoldable pub privacy_headers : Header → Header
unfolding strip_names
privacy_headers h = strip_names h h

-- MetadataTransport.RoundTrip, up to the request that it hands on with the random identifier.
unfoldable pub metadata_headers : String → Header → Header
unfolding canonical remove
metadata_headers request_id h =
    set_header (codes "X-Request-ID") request_id
      (del (codes "X-Internal-Job-ID") (del (codes "X-Cell-ID") (del (codes "X-Account-ID") h)))
