-- ===== src/Reasons.antt =====
-- src/modules/commercial-changes/disconnection-reasons.ts: the reasons for a disconnection, by slug.
-- `isActive` is true throughout and is left out.
mod Laws
use text.Mathlib.Text.{◌==◌ as str_eq}
use isp_sam_backend.Prelude.{String, Option, none, some, List, [], ◌∷◌, if◌then◌else◌}
use isp_sam_backend.Text.{bind_truthy}

pub record SubCategory : Type 0 where
  pub id : String
  pub name : String

pub record Category : Type 0 where
  pub id : String
  pub name : String
  pub sub_categories : List SubCategory

abbrev sub : String → String → SubCategory
sub i n = record { id = i; name = n }

abbrev category : String → String → List SubCategory → Category
category i n subs = record { id = i; name = n; sub_categories = subs }

unfoldable pub disconnection_reasons : List Category
disconnection_reasons =
    category "office-closed" "Office Closed" (sub "office-closed" "Office Closed" ∷ [])
    ∷ category "project-closed" "Project Closed"
        (sub "project-handovered-closed" "Project Handovered/Closed" ∷ [])
    ∷ category "commercial-issue" "Commercial Issue" (
        sub "moved-for-better-pricing" "Moved for Better Pricing"
        ∷ sub "shifted-to-broadband" "Shifted to Broadband"
        ∷ sub "company-in-crisis-business-downfall" "Company in Crisis / Business Downfall"
        ∷ [])
    ∷ category "management-call" "Management Call" (
        sub "shifted-to-telcom" "Shifted to Telcom (TTL / Airtel / Voda)"
        ∷ sub "wants-single-isp" "Wants Single ISP"
        ∷ sub "moved-to-coworking" "Moved to Coworking Location"
        ∷ [])
    ∷ category "service-issue" "Service Issue" (
        sub "frequent-link-down" "Frequent Link Down Issue"
        ∷ sub "ip-blacklisting" "IP Blacklisting Issue"
        ∷ sub "non-service-area" "Link in Non-Service Area / Jeopardy Location"
        ∷ sub "link-shifting-non-feasible" "Link Shifting in Non-Feasible Location"
        ∷ sub "vendor-partner-support" "Vendor / Partner Support Issue"
        ∷ [])
    ∷ []

abbrev pub find_category : String → List Category → Option Category
find_category slug [] = none
find_category slug (c ∷ cs) = if str_eq c.id slug then some c else find_category slug cs

abbrev pub find_sub : String → List SubCategory → Option SubCategory
find_sub slug [] = none
find_sub slug (c ∷ cs) = if str_eq c.id slug then some c else find_sub slug cs

pub record Labels : Type 0 where
  pub category : Option String
  pub sub_category : Option String

abbrev pub no_labels : Labels
no_labels = record { category = none; sub_category = none }

abbrev sub_label : Option String → List SubCategory → Option String
sub_label none subs = none
sub_label (some slug) subs = elim (find_sub slug subs) [ none ↦ none | some c ↦ some c.name ]

abbrev labels_in : List Category → Option String → Option String → Labels
labels_in reasons none sub_slug = no_labels
labels_in reasons (some slug) sub_slug = elim (find_category slug reasons) [
  | none ↦ no_labels
  | some c ↦ record { category = some c.name; sub_category = sub_label sub_slug c.sub_categories }
]

-- An id that is missing or empty is false in the source, so it finds nothing.
unfoldable pub lookup_disconnection_labels : Option String → Option String → Labels
unfolding disconnection_reasons
lookup_disconnection_labels cat sub =
    labels_in disconnection_reasons (bind_truthy cat) (bind_truthy sub)
