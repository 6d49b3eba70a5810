-- ===== src/Platform/Gin.antt =====
-- gin-gonic/gin: the request that a handler reads, the response that it writes, and the choice of
-- the route. Patterns are lists of segments, and a JSON body is data.
use nimbus_run_a_self_hosted.Prelude.{
  ℕ, String, ◌≡◌, ◌⊎◌, Bool, Option, some, List, [], ◌∷◌, str_eq, if◌then◌else◌,
}
use nimbus_run_a_self_hosted.Prelude.Members.{In}
use nimbus_run_a_self_hosted.Prelude.Exec.{Error, Result, ok, err, Exec, pure}
use nimbus_run_a_self_hosted.Prelude.Int.{ℤ}
use nimbus_run_a_self_hosted.Platform.Data.{Uuid, Time}
use nimbus_run_a_self_hosted.Models.{Function}

pub data Field : Type 0 where
  string : String → Field
  integer : ℤ → Field
  boolean : Bool → Field
  identifier : Uuid → Field
  instant : Time → Field
  no_items : Field

-- `gin.H`
abbrev pub Object : Type 0
Object = List (String × Field)

pub data Body : Type 0 where
  object : Object → Body
  array : List Object → Body
  function : Function → Body
  no_content : Body

pub record Response : Type 0 where
  pub status : ℕ
  pub body : Body

pub record Request : Type 0 where
  pub method : String
  pub path : List String
  -- A header or query parameter that is not there reads as the empty text.
  pub header : String → String
  pub query : String → String
  pub body : String

-- What a handler reads of `gin.Context`; `user_id` is the key that a middleware has set.
pub record Context : Type 0 where
  pub request : Request
  pub param : String → String
  pub user_id : Option String

-- A segment of a pattern: `name` or `:name`.
pub data Piece : Type 0 where
  literal : String → Piece
  colon : String → Piece

pub record Route (E : Type 0) : Type 0 where
  pub method : String
  pub pattern : List Piece
  -- The group's middleware asks for a token.
  pub guarded : Bool
  pub endpoint : E

-- Whether the segments of a path match a pattern.
unfoldable pub matches : List Piece → List String → Bool
matches [] [] = Bool.true
matches [] (s ∷ path) = Bool.false
matches (p ∷ pattern) [] = Bool.false
matches (literal name ∷ pattern) (s ∷ path) =
    let rest = matches pattern path in if str_eq name s then rest else Bool.false
matches (colon name ∷ pattern) (s ∷ path) = matches pattern path

-- `find` chooses among the routes and gives the parameters; `unrouted` and `recovered` are the
-- replies of gin itself when there is no route, and when a handler has panicked. A path that has a
-- route but for a slash at its end is redirected.
pub record Gin (E : Type 0) : Type 0 where
  pub find : List (Route E) → Request → Option (Route E × (String → String))
  pub unrouted : List (Route E) → Request → Response
  pub recovered : Response

-- A route that is chosen is one of the table, with the method of the request, and matches its path.
pub record IsGin {E : Type 0} (g : Gin E) : Type 0 where
  pub find_mem :
      (table : List (Route E)) (r : Request) (route : Route E) (ps : String → String)
      → g.find table r ≡ some (route, ps)
      → In route table
  pub find_method :
      (table : List (Route E)) (r : Request) (route : Route E) (ps : String → String)
      → g.find table r ≡ some (route, ps)
      → route.method ≡ r.method
  pub find_matches :
      (table : List (Route E)) (r : Request) (route : Route E) (ps : String → String)
      → g.find table r ≡ some (route, ps)
      → matches route.pattern r.path ≡ Bool.true
  pub unrouted_status :
      (table : List (Route E)) (r : Request)
      → ((g.unrouted table r).status ≡ 404)
        ⊎ (((g.unrouted table r).status ≡ 301) ⊎ ((g.unrouted table r).status ≡ 307))
  pub recovered_status : g.recovered.status ≡ 500

-- `gin.H{"error": message}`
abbrev pub error_reply : ℕ → String → Response
error_reply status message = record {
  status = status;
  body = object (("error", string message) ∷ []);
}

module _ {S A : Type 0} where
  abbrev pub reply_or : (Error → Response) → (A → Exec S Response) → Result A → Exec S Response
  reply_or reply rest (ok a) = rest a
  reply_or reply rest (err cause) = pure (reply cause)

  -- `a, err := m; if err != nil { c.JSON(…); return }`
  abbrev pub or_reply : Exec S A → (Error → Response) → (A → Exec S Response) → Exec S Response
  or_reply m reply rest s = reply_or reply rest (m s).0 (m s).1
