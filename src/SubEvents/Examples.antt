-- ===== src/SubEvents/Examples.antt =====
-- A sub-event is added to a small event and the first one is archived, and the witnesses of the
-- theorems.
use openfotos_platform.Prelude.{
  ◌≡◌, refl, sym, subst, true, false, none, [], ◌∷◌, ◌++◌, Text, ◌=ᵗ◌, =ᵗ_sound, =ᵗ_refl, arith,
  any, find, update,
}
use openfotos_platform.Keys.{codes}
use openfotos_platform.Models.{Db, SubEvent, AuditEntry, save_event, satisfies_constraints}
use openfotos_platform.Ingest.Rows.{has_control}
use openfotos_platform.Samples.{start}
use openfotos_platform.SubEvents.{
  Naming, create_sub_event, archive_rows, require_editable, normalized_name, require_unique_name,
  validated_position, get_sub_event,
}
use openfotos_platform.SubEvents.Structure.{
  StructureStep, StructureSteps, StructureSteps-valid, StructureValid,
}

-- Names are the same when they are equal.
abbrev plain_naming : Naming
plain_naming = record { strip = λ t. t; same_name = λ s t. s =ᵗ t }

=ᵗ_sym : (s t : Text) → (s =ᵗ t) ≡ true → (t =ᵗ s) ≡ true
=ᵗ_sym s t e = subst (λ u. (t =ᵗ u) ≡ true) (sym (=ᵗ_sound s t e)) (=ᵗ_refl t)

abbrev mehndi : SubEvent
mehndi = record { id = 31; name = codes "Mehndi"; position = 2; is_archived = false }

abbrev haldi : SubEvent
haldi = record { id = 30; name = codes "Haldi"; position = 1; is_archived = true }

abbrev with_mehndi : Db
with_mehndi = record start {
  sub_events = start.sub_events ++ mehndi ∷ [];
  audit = AuditEntry.sub_event_created 31 ∷ [];
}

abbrev without_haldi : Db
without_haldi = record with_mehndi {
  event = record start.event {
    derivatives_ready_generation = none;
    face_index_ready_generation = none;
    updated_at = 9;
  };
  sub_events = haldi ∷ mehndi ∷ [];
  audit = AuditEntry.sub_event_created 31 ∷ AuditEntry.sub_event_archival 30 true ∷ [];
}

two_changes : StructureSteps plain_naming start without_haldi
unfolding create_sub_event archive_rows require_editable normalized_name require_unique_name
    validated_position get_sub_event has_control save_event satisfies_constraints any find update
    ◌=ᵗ◌
two_changes =
    StructureSteps.next (StructureStep.create {db' = with_mehndi} (codes "Mehndi") 2 31 mehndi refl)
      (StructureSteps.next
        (StructureStep.archive {db' = without_haldi} 9 30 true (haldi, true) refl)
        StructureSteps.done)

start_valid : StructureValid plain_naming start
unfolding any ◌=ᵗ◌
start_valid = (refl, ground arith)

StructureSteps-valid_example : StructureValid plain_naming without_haldi
StructureSteps-valid_example =
    StructureSteps-valid plain_naming =ᵗ_sym start without_haldi two_changes start_valid
