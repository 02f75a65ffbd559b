-- ===== src/Domain/CustomDomain.antt =====
-- internal/domain/custom_domain.go: the hostnames that users bring.
use pingcast.Prelude.{ℕ, String, Bool, true, false, Option, Text}

pub data CustomDomainStatus : Type 0 where
  pending validated active failed : CustomDomainStatus

-- Of the last error the format is kept, not its arguments.
pub record CustomDomain : Type 0 where
  pub id : ℕ
  pub user_id : ℕ
  pub hostname : Text
  pub validation_token : Text
  pub status : CustomDomainStatus
  pub last_error : Option String
  pub dns_validated_at : Option ℕ
  pub cert_issued_at : Option ℕ
  pub created_at : ℕ

abbrev pub is_active : CustomDomain → Bool
is_active d = elim d.status [ active ↦ true | _ ↦ false ]

abbrev pub is_validated : CustomDomain → Bool
is_validated d = elim d.status [ validated ↦ true | _ ↦ false ]

-- Pending, or failed and tried again.
abbrev pub is_waiting : CustomDomain → Bool
is_waiting d = elim d.status [ pending ↦ true | failed ↦ true | _ ↦ false ]
