-- ===== src/Burn/Payload.antt =====
-- `buildParityPayload` of internal/burn/pipeline.go.
use varis.Base.{Bool, true, false, not, ◌||◌, List, [], ◌∷◌, if◌then◌else◌, Text, text_eq}
use varis.Db.{Role, data_role}
use varis.Burn.Plan.{DiscPlan}

abbrev pub is_data : Role → Bool
is_data data_role = true
is_data _ = false

-- The plans that the loops over `job.Plans` do not skip: the data discs of the group.
unfoldable pub group_data_plans : Text → List DiscPlan → List DiscPlan
group_data_plans group_id [] = []
group_data_plans group_id (p ∷ plans) =
    let rest = group_data_plans group_id plans in
    if not (text_eq p.group_id group_id) || not (is_data p.role) then rest else p ∷ rest
