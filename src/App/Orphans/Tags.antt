-- ===== src/App/Orphans/Tags.antt =====
-- What the tags of a listed droplet say.
use Prim.Native.Char.{code}
use digital_ocean_bot.Prelude.{
  ==_iff, ℕ, zero, suc, String, ◌≡◌, refl, sym, ap, ◌∙◌, subst, ◌⊎◌, inl, inr, Bool, true, ◌||◌,
  none, some, List, [], ◌∷◌, ◌++◌, arith, eq_iff, str_eq, ◌==◌, Bool-cases, Option-cases, get_elem?,
}
use digital_ocean_bot.Text.{codes, strip_prefix}
use digital_ocean_bot.App.Orphans.{scan_tags}

-- The tag is the prefix with this text behind it.
abbrev pub Names : String → List ℕ → Type 0
Names tag dep = codes tag ≡ codes "dob-deployment-" ++ dep

abbrev pub NamesNone : List String → Type 0
NamesNone tags = (i : ℕ) (t : String) (dep : List ℕ) → get_elem? tags i ≡ some t → Names t dep → ⊥

-- The last of the tags that name a deployment names this one.
pub record LastNames (tags : List String) (dep : String) : Type 0 where
  pub before : List String
  pub tag : String
  pub after : List String
  pub split : tags ≡ before ++ tag ∷ after
  pub named : Names tag (codes dep)
  pub last : NamesNone after

strip_prefix-some : (s p r : String) → strip_prefix s p ≡ some r → codes s ≡ codes p ++ codes r
unfolding strip_prefix
strip_prefix-some s String.[] r h = cc
strip_prefix-some String.[] (String.◌∷◌ c p) r h = absurd cc
strip_prefix-some (String.◌∷◌ d s) (String.◌∷◌ c p) r h = elim (Bool-cases (code d == code c)) [
  | inr other ↦ absurd (ground (arith, other))
  | inl same ↦ λ i. (==_iff (code d) (code c)).0 same i ∷ strip_prefix-some s p r (rw same at h) i
]

strip_prefix-none :
    (s p : String) → strip_prefix s p ≡ none → (r : List ℕ) → codes s ≡ codes p ++ r → ⊥
unfolding strip_prefix
strip_prefix-none s String.[] h r e = absurd cc
strip_prefix-none String.[] (String.◌∷◌ c p) h r e = cc
strip_prefix-none (String.◌∷◌ d s) (String.◌∷◌ c p) h r e =
    let same : (code d == code c) ≡ true = (==_iff (code d) (code c)).1 (head_eq e) in
    strip_prefix-none s p (rw same at h) r (tail_eq e)
  where
    head_eq : (code d ∷ codes s) ≡ (code c ∷ (codes p ++ r)) → code d ≡ code c
    head_eq e = cc

    tail_eq : (code d ∷ codes s) ≡ (code c ∷ (codes p ++ r)) → codes s ≡ codes p ++ r
    tail_eq e = cc

pub scan_tags-owned :
    (ts : List String) (owned : Bool) (dep : String)
    → (scan_tags ts owned dep).0 ≡ true
    → (owned ≡ true) ⊎ ((i : ℕ) × (get_elem? ts i ≡ some "managed-by-digital-ocean-bot"))
unfolding scan_tags
scan_tags-owned [] owned dep h = inl h
scan_tags-owned (t ∷ ts) owned dep h = elim (scan_tags-owned ts _ _ h) [
  | inr (i, at) ↦ inr (suc i, at)
  | inl here ↦ elim (Bool-cases (str_eq t "managed-by-digital-ocean-bot")) [
    | inl same ↦ inr (0, ap (λ s. some s) ((eq_iff t "managed-by-digital-ocean-bot").0 same))
    | inr other ↦ inl (ground (arith, other))
  ]
]

NamesNone-cons :
    (t : String) (ts : List String)
    → strip_prefix t "dob-deployment-" ≡ none
    → NamesNone ts
    → NamesNone (t ∷ ts)
NamesNone-cons t ts h quiet zero u dep at named =
    strip_prefix-none t "dob-deployment-" h dep (ap codes here ∙ named)
  where
    here : t ≡ u
    here = cc
NamesNone-cons t ts h quiet (suc i) u dep at named = quiet i u dep at named

pub scan_tags-last :
    (ts : List String) (owned : Bool) (dep : String)
    → LastNames ts (scan_tags ts owned dep).1 ⊎ (((scan_tags ts owned dep).1 ≡ dep) × NamesNone ts)
unfolding scan_tags
scan_tags-last [] owned dep = inr (refl, λ i t d at. absurd cc)
scan_tags-last (t ∷ ts) owned dep =
    elim (scan_tags-last ts (str_eq t "managed-by-digital-ocean-bot" || owned)
      (elim (strip_prefix t "dob-deployment-") [ none ↦ dep | some rest ↦ rest ])) [
        | inl tag ↦ inl (record {
          before = t ∷ tag.before;
          tag = tag.tag;
          after = tag.after;
          split = ap (λ us. t ∷ us) tag.split;
          named = tag.named;
          last = tag.last;
        })
        | inr (same, quiet) ↦ elim (Option-cases (strip_prefix t "dob-deployment-")) [
          | inl foreign ↦ inr (same ∙ rw foreign refl, NamesNone-cons t ts foreign quiet)
          | inr (rest, own) ↦
              let ours : (scan_tags (t ∷ ts) owned dep).1 ≡ rest = same ∙ rw own refl in
              inl (record {
                before = [];
                tag = t;
                after = ts;
                split = refl;
                named =
                    subst (λ r. Names t (codes r)) (sym ours)
                      (strip_prefix-some t "dob-deployment-" rest own);
                last = quiet;
              })
        ]
      ]
