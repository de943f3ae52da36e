-- ===== src/Http.antt =====
-- What the two servers and the master take of HTTP: methods, status codes and replies.
use rackkey.Common.{ℕ, List, [], Bool, true, false}

pub data StatusCode : Type 0 where
  status_ok : StatusCode
  internal_error : StatusCode
  not_implemented : StatusCode

pub record Reply : Type 0 where
  pub status : StatusCode
  pub body : List ℕ

-- The methods that the router tells apart.
pub data Method : Type 0 where
  method_get : Method
  method_put : Method
  method_del : Method
  method_other : Method

abbrev pub is_get : Method → Bool
is_get method_get = true
is_get method_put = false
is_get method_del = false
is_get method_other = false

-- `request.reply(status)`
abbrev pub bare : StatusCode → Reply
bare status = record { status = status; body = [] }
