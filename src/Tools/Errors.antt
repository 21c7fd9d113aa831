-- ===== src/Tools/Errors.antt =====
-- tools/errors.py: the classes of a tool's failure.
use smart_router.Prelude.{ℕ, Bool, ◌||◌, ◌&&◌, leb, ltb, nat_eq, if◌then◌else◌}
use smart_router.Prelude.Exec.{
  Exception, tool_transient, tool_semantic, tool_auth, tool_not_found, tool_other,
}
use smart_router.Schemas.Message.{Text}

-- the subclasses of `ToolError`; `other` is the base class itself
pub data ToolErrorClass : Type 0 where
  transient semantic auth not_found other : ToolErrorClass

abbrev pub tool_error : ToolErrorClass → Text → Exception
tool_error ToolErrorClass.transient m = tool_transient m
tool_error ToolErrorClass.semantic m = tool_semantic m
tool_error ToolErrorClass.auth m = tool_auth m
tool_error ToolErrorClass.not_found m = tool_not_found m
tool_error ToolErrorClass.other m = tool_other m

is_retryable_status : ℕ → Bool
is_retryable_status s =
    nat_eq s 408
    || nat_eq s 425
    || nat_eq s 429
    || nat_eq s 500
    || nat_eq s 502
    || nat_eq s 503
    || nat_eq s 504

unfoldable pub classify_status : ℕ → ToolErrorClass
unfolding is_retryable_status
classify_status s =
    if nat_eq s 401 || nat_eq s 403
    then ToolErrorClass.auth
    else if is_retryable_status s
    then ToolErrorClass.transient
    else if nat_eq s 404
    then ToolErrorClass.semantic
    else if leb 400 s && ltb s 500
    then ToolErrorClass.semantic
    else ToolErrorClass.transient
