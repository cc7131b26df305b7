-- ===== src/Reasons/Laws.antt =====
-- Every slug of the taxonomy is found under its own label
-- (src/modules/commercial-changes/disconnection-reasons.ts).
use text.Mathlib.Text.{◌==◌ as str_eq}
use isp_sam_backend.Prelude.{
  ◌≡◌, refl, String, Bool, true, false, ◌&&◌, Option, none, some, List, [], ◌∷◌,
}
use isp_sam_backend.Reasons.{
  SubCategory, Category, disconnection_reasons, lookup_disconnection_labels,
}

is_label : Option String → String → Bool
is_label none s = false
is_label (some t) s = str_eq t s

subs_resolve : Category → List SubCategory → Bool
subs_resolve c [] = true
subs_resolve c (d ∷ ds) =
    is_label (lookup_disconnection_labels (some c.id) (some d.id)).category c.name
    && (is_label (lookup_disconnection_labels (some c.id) (some d.id)).sub_category d.name
        && subs_resolve c ds)

all_resolve : List Category → Bool
unfolding subs_resolve
all_resolve [] = true
all_resolve (c ∷ cs) = subs_resolve c c.sub_categories && all_resolve cs

-- Every slug of the taxonomy resolves to its own label: no earlier entry has its id.
all_resolve_lem : all_resolve disconnection_reasons ≡ true
unfolding all_resolve lookup_disconnection_labels is_label
all_resolve_lem = refl
