-- ===== src/Manifest/Links.antt =====
-- The peer links of a manifest: `upsertPeer` of infra/lib/manifest.ts.
use Prim.Native.String.{String}
use text.Mathlib.Text.{◌==◌ as str_eq}
use text.Mathlib.TextEquality.{eq_iff}
use boundless_stock.Prelude.{
  ℕ, ◌≡◌, refl, arith, Option, none, some, List, [], ◌∷◌, if◌then◌else◌, ◌==◌, ◌&&◌,
}
use boundless_stock.Manifest.{PeerRecord, upsert}

pub find_link : String → String → ℕ → List PeerRecord → Option PeerRecord
find_link label chain eid [] = none
find_link label chain eid (p ∷ ps) =
    if str_eq p.label label && (str_eq p.from_chain chain && p.to_eid == eid)
    then some p
    else find_link label chain eid ps

-- No two records are of one link.
abbrev pub IsKeyed : List PeerRecord → Type 0
IsKeyed [] = Unit
IsKeyed (p ∷ ps) = (find_link p.label p.from_chain p.to_eid ps ≡ none) × IsKeyed ps

pub find_link-upsert :
    (r : PeerRecord) (label chain : String) (eid : ℕ) (ps : List PeerRecord)
    → find_link label chain eid (upsert r ps) ≡ (
        if str_eq r.label label && (str_eq r.from_chain chain && r.to_eid == eid)
        then some r
        else find_link label chain eid ps)
unfolding find_link upsert
find_link-upsert r label chain eid [] = refl
find_link-upsert r label chain eid (p ∷ ps) = ground (
  arith,
  find_link-upsert r label chain eid ps,
  eq_iff p.label r.label,
  eq_iff p.from_chain r.from_chain,
  eq_iff p.label label,
  eq_iff p.from_chain chain,
  eq_iff r.label label,
  eq_iff r.from_chain chain,
)

pub upsert-IsKeyed : (r : PeerRecord) (ps : List PeerRecord) → IsKeyed ps → IsKeyed (upsert r ps)
unfolding find_link upsert
upsert-IsKeyed r [] h = (refl, tt)
upsert-IsKeyed r (p ∷ ps) h = ground (
  arith,
  upsert-IsKeyed r ps h.1,
  find_link-upsert r p.label p.from_chain p.to_eid ps,
  eq_iff p.label r.label,
  eq_iff p.from_chain r.from_chain,
  eq_iff r.label p.label,
  eq_iff r.from_chain p.from_chain,
)
