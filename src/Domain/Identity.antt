-- ===== src/Domain/Identity.antt =====
-- The identifiers of domain.py: who asks, for what, and on whose behalf.
use nest_authz.Prelude.{String, Eq, string_discrete, Result, ok, ◌>>◌}
use nest_authz.Domain.Value.{non_blank}

pub record Subject : Type 0 where
  pub identifier : String

pub record Action : Type 0 where
  pub name : String

pub record Resource : Type 0 where
  pub identifier : String

-- A grantor or grantee identifier.
pub record Principal : Type 0 where
  pub identifier : String

-- An assertion that relates a subject to a principal.
pub record SubjectPrincipalBinding : Type 0 where
  pub subject : Subject
  pub principal : Principal

pub record ApproverSubjectPrincipalBinding : Type 0 where
  pub subject : Subject
  pub principal : Principal

unfoldable pub subject_post_init : Subject → Result Subject
unfolding non_blank
subject_post_init s = do non_blank s.identifier "subject identifier"; ok s

unfoldable pub action_post_init : Action → Result Action
unfolding non_blank
action_post_init a = do non_blank a.name "action name"; ok a

unfoldable pub resource_post_init : Resource → Result Resource
unfolding non_blank
resource_post_init r = do non_blank r.identifier "resource identifier"; ok r

unfoldable pub principal_post_init : Principal → Result Principal
unfolding non_blank
principal_post_init p = do non_blank p.identifier "principal identifier"; ok p

instance unfoldable pub subject_eq : Eq Subject
unfolding string_discrete
subject_eq = record { dec = hlevel string_discrete }

instance unfoldable pub action_eq : Eq Action
unfolding string_discrete
action_eq = record { dec = hlevel string_discrete }

instance unfoldable pub resource_eq : Eq Resource
unfolding string_discrete
resource_eq = record { dec = hlevel string_discrete }

instance unfoldable pub principal_eq : Eq Principal
unfolding string_discrete
principal_eq = record { dec = hlevel string_discrete }
