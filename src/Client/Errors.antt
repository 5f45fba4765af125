-- ===== src/Client/Errors.antt =====
-- The errors of the PushWard client: `problem` and the typed errors of shared/pushward/client.go. What
-- `json.Unmarshal` reads from a body is a part of the body here.
use pushward_integrations.Prelude.{
  ℕ, Bool, true, false, ◌&&◌, Option, none, some, [], ◌∷◌, if◌then◌else◌, Str, str_eq, ◌==◌,
}
use pushward_integrations.Prelude.Int.{ℤ, pos}
use pushward_integrations.Ci.Names.{codes}

pub record Problem : Type 0 where
  pub type : Str
  pub title : Str
  pub status : ℕ
  pub detail : Str
  pub code : Str
  pub retry_after_ms : ℤ
  pub kind : Str
  pub used : ℕ
  pub limit : ℕ
  pub reset_at : Str

abbrev pub zero_problem : Problem
zero_problem = record {
  type = [];
  title = [];
  status = 0;
  detail = [];
  code = [];
  retry_after_ms = pos 0;
  kind = [];
  used = 0;
  limit = 0;
  reset_at = [];
}

-- `{"error": …, "retry_after_ms": …}`
pub record Legacy : Type 0 where
  pub error : Str
  pub retry_after_ms : ℤ

-- A response body: whether it is empty, what the two calls of `json.Unmarshal` leave in their targets, and
-- whether the bytes "limit" stand in it.
pub record Body : Type 0 where
  pub empty : Bool
  pub problem : Problem
  pub legacy : Option Legacy
  pub has_limit : Bool

abbrev pub is_blank : Str → Bool
is_blank [] = true
is_blank (c ∷ s) = false

abbrev pub is_zero_int : ℤ → Bool
is_zero_int (pos n) = n == 0
is_zero_int _ = false

abbrev promote : Option Legacy → Problem → Problem
promote none p = p
promote (some l) p = if is_blank l.error then p else record p {
  detail = l.error;
  retry_after_ms = if is_zero_int p.retry_after_ms then l.retry_after_ms else p.retry_after_ms;
}

unfoldable pub parse_problem : Body → Problem
parse_problem body =
    if body.empty
    then zero_problem
    else if is_blank body.problem.detail
        && is_blank body.problem.title
        && is_blank body.problem.code
    then promote body.legacy body.problem
    else body.problem

pub record HttpError : Type 0 where
  pub status_code : ℕ
  pub type : Str
  pub title : Str
  pub detail : Str
  pub code : Str
  pub retry_after_ms : ℤ

pub record Quota : Type 0 where
  pub kind : Str
  pub used : ℕ
  pub limit : ℕ
  pub reset_at : Str

-- The errors that a call returns, with what they wrap.
pub data Error : Type 0 where
  circuit_open marshaling ctx_done creating_request sending conflict decoding : Error
  http : HttpError → Error
  quota_exceeded : HttpError → Quota → Error
  activity_limit : HttpError → Error
  max_retries : Error → Error
  budget_spent : ℕ → Error → Error

abbrev pub code_quota_exceeded : Str
code_quota_exceeded = codes "quota.exceeded"

abbrev pub code_activity_limit : Str
code_activity_limit = codes "activity.limit_exceeded"

abbrev pub code_answer_wait_limit : Str
code_answer_wait_limit = codes "answer_wait.limit_exceeded"

unfoldable pub http_error : ℕ → Problem → HttpError
http_error status p = record {
  status_code = status;
  type = p.type;
  title = p.title;
  detail = p.detail;
  code = p.code;
  retry_after_ms = p.retry_after_ms;
}

unfoldable pub new_http_error : ℕ → Problem → Error
unfolding http_error
new_http_error status p =
    if str_eq p.code code_quota_exceeded
    then quota_exceeded (http_error status p)
        (record { kind = p.kind; used = p.used; limit = p.limit; reset_at = p.reset_at })
    else if str_eq p.code code_activity_limit
    then activity_limit (http_error status p)
    else http (http_error status p)
