-- ===== src/Work/Patch.antt =====
-- `update_promotion` and `update_dispositions`: the writes outside a transition.
use docplane.Base.{ℕ, suc, String, Bool, true, false, not, ◌&&◌, Option, is_some, eqb}
use docplane.Base.Dict.{insert}
use docplane.Json.{Json}
use docplane.Http.{Result, ok, refuse_if, ◌>>=◌, ◌>>◌}
use docplane.Work.Types.{Db, Initiative, PromotionState, Disposition, text_or, disposition_or}
use docplane.Work.Rows.{load_initiative}

pub record PromotionUpdate : Type 0 where
  pub expected_version : ℕ
  pub promotion_state : PromotionState
  pub promotion_change_id : Option String

pub record DispositionsUpdate : Type 0 where
  pub expected_version : ℕ
  pub model_disposition : Option Disposition
  pub model_disposition_note : Option String
  pub observe_disposition : Option Disposition
  pub observe_disposition_note : Option String
  pub soak_monitoring_ref : Option String

abbrev pub is_promoted : PromotionState → Bool
is_promoted PromotionState.promoted = true
is_promoted _ = false

unfoldable pub with_promotion : ℕ → PromotionUpdate → Initiative → Initiative
with_promotion now r i = record i {
  promotion_state = r.promotion_state;
  promotion_change_id = r.promotion_change_id;
  version = suc i.version;
  updated_at = now;
}

unfoldable pub with_dispositions : ℕ → DispositionsUpdate → Initiative → Initiative
with_dispositions now r i = record i {
  model_disposition = disposition_or r.model_disposition i.model_disposition;
  model_disposition_note = text_or r.model_disposition_note i.model_disposition_note;
  observe_disposition = disposition_or r.observe_disposition i.observe_disposition;
  observe_disposition_note = text_or r.observe_disposition_note i.observe_disposition_note;
  soak_monitoring_ref = text_or r.soak_monitoring_ref i.soak_monitoring_ref;
  version = suc i.version;
  updated_at = now;
}

abbrev pub replace_row : String → Initiative → Db → Db
replace_row id i db = record db { initiatives = insert id i db.initiatives }

-- `known_change` is the foreign key of `promotion_change_id` into docs.changes.
module _ (present : Initiative → Json) (known_change : Option String → Bool) (now : ℕ) where
  -- `promoted_requires_change` of the request's model runs first.
  unfoldable pub update_promotion : String → PromotionUpdate → Db → Result (Json × Db)
  unfolding load_initiative with_promotion insert
  update_promotion id r db = do
    refuse_if (is_promoted r.promotion_state && not (is_some r.promotion_change_id)) 422
        "PROMOTED requires promotion_change_id"
    i ← load_initiative db id
    refuse_if (not (eqb i.version r.expected_version)) 409 "INITIATIVE_VERSION_STALE"
    refuse_if (not (known_change r.promotion_change_id)) 500 "ForeignKeyViolation"
    ok (present (with_promotion now r i), replace_row id (with_promotion now r i) db)

  unfoldable pub update_dispositions : String → DispositionsUpdate → Db → Result (Json × Db)
  unfolding load_initiative with_dispositions insert
  update_dispositions id r db = do
    i ← load_initiative db id
    refuse_if (not (eqb i.version r.expected_version)) 409 "INITIATIVE_VERSION_STALE"
    ok (present (with_dispositions now r i), replace_row id (with_dispositions now r i) db)
