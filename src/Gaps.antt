-- ===== src/Gaps.antt =====
-- `plan_gap_reconciliation` of docs-api/app/observe_api.py: which gaps to create, reopen, refresh and
-- resolve. `B` is the briefing, JSON as the database keeps it.
pub mod Apart
use docplane.Base.{
  ℕ, suc, String, ◌≡◌, refl, sym, ap, ◌∙◌, Bool, true, false, not, ◌&&◌, ◌||◌, Option, none, some,
  List, [], ◌∷◌, ◌++◌, ◌==◌, arith, eq_iff, eq_refl, if◌then◌else◌, is_some,
}
use docplane.Base.Lists.{keep, take}

-- `OPEN` and `RESOLVED`, the statuses of observe.gaps
pub data GapStatus : Type 0 where
  unresolved resolved : GapStatus

module _ (B : Type 0) where
  -- A candidate; an existing row is one with its status.
  pub record Gap : Type 0 where
    pub gap_kind : String
    pub subject_entity_id : String
    pub subject_entity_key : Option String
    pub page_path : Option String
    pub briefing : B

  pub record Known : Type 0 where
    pub gap : Gap
    pub status : GapStatus

  pub record Plan : Type 0 where
    pub create : List Gap
    pub reopen : List Gap
    pub refresh : List Gap
    pub resolve : List Known

abbrev pub same_text : Option String → Option String → Bool
same_text none none = true
same_text (some s) (some t) = s == t
same_text _ _ = false

abbrev pub is_open : GapStatus → Bool
is_open unresolved = true
is_open resolved = false

-- `{key(item): item for item in items}`: a later item takes the place of an earlier one with its key.
module _ {A : Type 0} (same_key : A → A → Bool) where
  unfoldable pub put : A → List A → List A
  put a [] = a ∷ []
  put a (b ∷ bs) = let rest = put a bs in if same_key b a then a ∷ bs else b ∷ rest

  unfoldable pub put_all : List A → List A → List A
  unfolding put
  put_all seen [] = seen
  put_all seen (a ∷ items) = put_all (put a seen) items

module _ {B : Type 0} where
  unfoldable pub same_gap : Gap B → Gap B → Bool
  same_gap g h = g.gap_kind == h.gap_kind && g.subject_entity_id == h.subject_entity_id

  unfoldable pub find_gap : List (Gap B) → Gap B → Option (Gap B)
  unfolding same_gap
  find_gap [] key = none
  find_gap (g ∷ gs) key = if same_gap g key then some g else find_gap gs key

  unfoldable pub find_known : List (Known B) → Gap B → Option (Known B)
  unfolding same_gap
  find_known [] key = none
  find_known (k ∷ ks) key = if same_gap k.gap key then some k else find_known ks key

module _ {B : Type 0} (same_briefing : B → B → Bool) where
  -- A field of the row differs from that of the candidate.
  unfoldable pub is_stale : Gap B → Gap B → Bool
  is_stale old new =
      not (same_text old.subject_entity_key new.subject_entity_key)
      || not (same_text old.page_path new.page_path)
      || not (same_briefing old.briefing new.briefing)

  abbrev pub one_of : Bool → Gap B → List (Gap B)
  one_of b g = if b then g ∷ [] else []

  -- `reopen` and `refresh`, for one known row and the candidate under its key.
  unfoldable pub reopen_of : Known B → Option (Gap B) → List (Gap B)
  reopen_of k none = []
  reopen_of k (some g) = one_of (not (is_open k.status)) g

  unfoldable pub refresh_of : Known B → Option (Gap B) → List (Gap B)
  unfolding is_stale
  refresh_of k none = []
  refresh_of k (some g) = one_of (is_open k.status && is_stale k.gap g) g

  unfoldable pub each_known :
      (Known B → Option (Gap B) → List (Gap B)) → List (Gap B) → List (Known B) → List (Gap B)
  unfolding find_gap
  each_known f wanted [] = []
  each_known f wanted (k ∷ ks) = f k (find_gap wanted k.gap) ++ each_known f wanted ks

  unfoldable pub resolved_by : List (Gap B) → Known B → Bool
  unfolding find_gap
  resolved_by wanted k = is_open k.status && not (is_some (find_gap wanted k.gap))

  unfoldable pub plan_gap_reconciliation : List (Gap B) → List (Known B) → ℕ → Plan B
  unfolding put_all same_gap keep find_known resolved_by each_known reopen_of refresh_of
  plan_gap_reconciliation candidates existing batch_limit =
      let wanted = put_all same_gap [] candidates in
      let known = put_all (λ k l. same_gap k.gap l.gap) [] existing in
      record {
        create = take batch_limit (keep (λ g. not (is_some (find_known known g))) wanted);
        reopen = each_known reopen_of wanted known;
        refresh = each_known refresh_of wanted known;
        resolve = keep (resolved_by wanted) known;
      }
