-- ===== src/Client/Names.antt =====
-- net/client.go: the names of responses, as `String` gives them for the logs.
use Prim.Native.String.{String}
use text.Mathlib.Text.{◌==◌}
use part_ii_project.Base.{if◌then◌else◌, ◌≡◌, refl, sym, ap, ◌∙◌}
use part_ii_project.Client.{PutResponse, error, success, unknown}

-- `String`
unfoldable pub response_name : PutResponse → String
response_name error = "error"
response_name success = "success"
response_name unknown = "unknown"

-- The response of a name, where there is one.
response_called : String → PutResponse
response_called s = if s == "error" then error else if s == "success" then success else unknown

response_called-name : (p : PutResponse) → response_called (response_name p) ≡ p
unfolding response_called response_name
response_called-name error = refl
response_called-name success = refl
response_called-name unknown = refl

-- The logs tell the responses apart.
pub response_name-eq : (p q : PutResponse) → response_name p ≡ response_name q → p ≡ q
response_name-eq p q e =
    sym (response_called-name p) ∙ ap response_called e ∙ response_called-name q
