-- ===== src/Tests/Accounts.antt =====
-- The aggregate and the specifications on concrete values.
use enterprise_system.Prelude.{◌≡◌, none, some, refl, [], ◌∷◌, codes, ok, any, text_eq}
use enterprise_system.Domain.Fault.{active}
use enterprise_system.Domain.Identity.{UniqueId, id_eq}
use enterprise_system.Domain.Aggregate.{
  RoleAssignment, SessionInfo, UserAggregate, assign_role, find_index, revoke_session,
}
use enterprise_system.Domain.Aggregate.Sessions as Sessions
use enterprise_system.Domain.Aggregate.Sessions.{
  IsClosed, run, run-IsClosed, revoke_session_lem, get_active_sessions-revoke_all_sessions,
  find_index-eq-none_iff,
}
use enterprise_system.Tests.Fixtures.{bob_as, bob_id, first_stamp}

abbrev admin_id : UniqueId
admin_id = record { value = codes "7c9e6679-7425-40de-944b-e07fc1f90ae7" }

abbrev admin : RoleAssignment
admin = record {
  id = bob_id;
  role_id = admin_id;
  role_name = codes "admin";
  granted_at = 5;
  granted_by = none;
}

abbrev laptop : SessionInfo
laptop = record {
  id = bob_id;
  user_agent = none;
  ip_address = none;
  expires_at = 100;
  created_at = 1;
  revoked_at = none;
}

abbrev phone : SessionInfo
phone = record laptop { id = admin_id }

abbrev plain : UserAggregate
plain = record { user = bob_as active; roles = []; sessions = laptop ∷ phone ∷ [] }

abbrev promoted : UserAggregate
promoted = record plain { roles = admin ∷ [] }

assigned : assign_role admin plain ≡ ok promoted
unfolding assign_role any
assigned = refl

abbrev laptop_lost : UserAggregate
laptop_lost = record plain { sessions = record laptop { revoked_at = some 7 } ∷ phone ∷ [] }

lost : revoke_session 7 bob_id plain ≡ ok laptop_lost
unfolding revoke_session find_index id_eq text_eq
lost = refl

run-IsClosed_example : IsClosed laptop_lost
run-IsClosed_example =
    run-IsClosed 7 first_stamp plain laptop_lost (Sessions.revoke_session bob_id) (λ h. cc)
      (unfold run in lost)
