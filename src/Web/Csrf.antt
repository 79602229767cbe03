-- ===== src/Web/Csrf.antt =====
-- What `checkCSRF` lets through.
use oracle_backup.Base.{true, ◌≡◌, ◌≢◌, ◌↔◌, ◌⊎◌, [], Option, none, some, arith}
use oracle_backup.Text.{Text, same_iff}
use oracle_backup.Web.Request.{Request, Env, is_host, is_token, same_origin, check_csrf}

-- The page that sent the request is of the request's host.
abbrev pub FromHost : Env → Request → Type 0
FromHost env r =
    ((r.origin ≢ []) × (env.url_host r.origin ≡ some r.host))
    ⊎ ((r.origin ≡ []) × (r.referer ≢ []) × (env.url_host r.referer ≡ some r.host))

pub is_host_iff : (h : Option Text) (host : Text) → (is_host h host ≡ true) ↔ (h ≡ some host)
is_host_iff none host = (λ e. cc, λ e. cc)
is_host_iff (some h) host = ground (arith, same_iff h host)

same_origin_iff : (env : Env) (r : Request) → (same_origin env r ≡ true) ↔ FromHost env r
unfolding same_origin
same_origin_iff env r = ground (
  arith,
  same_iff r.origin [],
  same_iff r.referer [],
  is_host_iff (env.url_host r.origin) r.host,
  is_host_iff (env.url_host r.referer) r.host,
)

is_token_iff :
    (c : Option Text) (header : Text)
    → (is_token c header ≡ true) ↔ ((header ≢ []) × (c ≡ some header))
is_token_iff none header = (λ e. cc, λ e. cc e.1)
is_token_iff (some t) header = ground (arith, same_iff t [], same_iff header t)

-- A request passes exactly when its header repeats the token of its cookie, which is not empty, and
-- the host of its Origin is its own host, or it has no Origin and the host of its Referer is. One
-- with neither never passes.
pub check_csrf_iff :
    (env : Env) (r : Request)
    → (check_csrf env r ≡ true)
      ↔ ((r.csrf_header ≢ []) × (r.csrf ≡ some r.csrf_header) × FromHost env r)
unfolding check_csrf
check_csrf_iff env r = ground (arith, is_token_iff r.csrf r.csrf_header, same_origin_iff env r)
