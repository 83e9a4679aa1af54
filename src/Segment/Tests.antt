-- ===== src/Segment/Tests.antt =====
-- Runs of the validation of a segment's definition.
use hy_fib_wa_app.Segment.{◌>>=◌}
use hy_fib_wa_app.Segment.{is_uuid}
use hy_fib_wa_app.Prelude.{text_eq}
use hy_fib_wa_app.Flow.Json.{items}
use hy_fib_wa_app.Flow.Json.{get_member}
use hy_fib_wa_app.Flow.Json.{entries}
use hy_fib_wa_app.Prelude.{◌≡◌, refl, [], ◌∷◌, none, some, Text, codes}
use hy_fib_wa_app.Flow.Json.{Json, str, arr, obj, no_items, item, no_members, member}
use hy_fib_wa_app.Segment.{SegmentDefinition, validate_segment_definition, bad_statuses, good, bad}
use hy_fib_wa_app.Segment.Accepted.{IsSegment, validate_segment_definition-IsSegment}

abbrev campaign_id : Text
campaign_id = codes "0a1B2c3d-0000-4000-8000-00000000000f"

abbrev retargeting : Json
retargeting = obj (
    member (codes "tags") (arr (item (str (codes "vip")) no_items)) (
      member (codes "campaign")
        (obj (
          member (codes "id") (str campaign_id)
            (member (codes "statuses") (arr (item (str (codes "read")) no_items)) no_members)))
        no_members))

abbrev retargeted : SegmentDefinition
retargeted = record {
  tags = some (codes "vip" ∷ []);
  country = none;
  has_consent = none;
  opted_in_only = none;
  campaign =
      some (record { id = campaign_id; statuses = some (codes "read" ∷ []); clicked = none });
}

retargeting-good : validate_segment_definition (some retargeting) ≡ good retargeted
unfolding validate_segment_definition ◌>>=◌ entries text_eq get_member items is_uuid
retargeting-good = refl

empty_statuses :
    validate_segment_definition (
      some (
        obj (
          member
            (codes "campaign")
            (obj (
              member
                (codes "id")
                (str campaign_id)
                (member (codes "statuses") (arr no_items) no_members)))
            no_members)))
    ≡ bad bad_statuses
unfolding validate_segment_definition ◌>>=◌ entries text_eq get_member is_uuid items
empty_statuses = refl

validate_segment_definition-IsSegment_example : IsSegment retargeted
validate_segment_definition-IsSegment_example =
    validate_segment_definition-IsSegment (some retargeting) retargeted retargeting-good
