-- ===== src/Core/Request/Target.antt =====
-- Where the calls of kube-core/src/request.rs are sent: their targets can be read back from their paths.
use text.Mathlib.TextLemmas.{append-nil, nil-append, cons-append}
use Prim.Native.Char.{Char, code}
use kube.Prelude.{
  nat_beq, ◌||◌, ◌&&◌, inl, inr, Bool-cases, ◌≡◌, refl, sym, ap, ◌∙◌, Bool, true, false, Option,
  none, some, List, [], ◌∷◌, String, ◌+++◌, strip_prefix, holds_slash, is_empty_text, if◌then◌else◌,
  Result, ok, err, ◌>>=◌, arith,
}
use kube.Core.Query.{ValidationError}
use kube.Core.ListParams.{validate as validate_list}
use kube.Core.WatchParams.{validate as validate_watch}
use kube.Core.PatchParams.{validate_post, validate as validate_patch}
use kube.Core.Gvk.{split_slash}
use kube.Core.Gvk.Roundtrip.{split_slash-group, split_slash-version}
use kube.Core.Version.Parse.{strip_prefix-append}
use kube.Core.Request.{
  Request, Error, Method, get, post, put, patch, delete, checked, Codec, HttpRequest, Built,
  refused, finish_request, named, subresource_path, list, watch, get_one, create, delete_one,
  delete_collection, patch_one, replace, get_subresource, create_subresource, patch_subresource,
  replace_subresource, get_metadata, list_metadata, watch_metadata, patch_metadata,
}
use kube.Core.Request.Checks.{
  Call, list_call, list_metadata_call, watch_call, watch_metadata_call, get_call, get_metadata_call,
  create_call, delete_call, delete_collection_call, patch_call, patch_metadata_call, replace_call,
  get_subresource_call, create_subresource_call, replace_subresource_call, patch_subresource_call,
  perform,
}

-- The resource, if it is one, and its subresource.
abbrev pub Target : Type 0
Target = Option String × Option String

abbrev segments : List String → Option Target
segments [] = none
segments (name ∷ []) = some (some name, none)
segments (name ∷ sub ∷ []) = some (some name, some sub)
segments (name ∷ sub ∷ part ∷ parts) = none

abbrev below_slash : String → Option String → Option Target
below_slash rest (some path) = segments (split_slash path)
below_slash rest none = if is_empty_text rest then some (none, none) else none

abbrev at_path : Option String → Option Target
at_path none = none
at_path (some rest) = below_slash rest (strip_prefix "/" rest)

-- A character that ends the path of a target: `http` parses the text that was formatted, in which the
-- query begins after the first question mark, and what follows a number sign is dropped.
abbrev ends_path : Char → Bool
ends_path c = nat_beq (code c) b'?' || nat_beq (code c) b'#'

-- The path of a target.
abbrev pub uri_path : String → String
uri_path String.[] = String.[]
uri_path (String.◌∷◌ c s) = if ends_path c then String.[] else String.◌∷◌ c (uri_path s)

-- All of the text is path.
abbrev pub is_path : String → Bool
is_path String.[] = true
is_path (String.◌∷◌ c s) = if ends_path c then false else is_path s

uri_path-whole : (s : String) → is_path s ≡ true → uri_path s ≡ s
uri_path-whole String.[] h = refl
uri_path-whole (String.◌∷◌ c s) h = elim (Bool-cases (ends_path c)) [
  | inl ends ↦ absurd (ground arith)
  | inr goes ↦ rw goes (ap (λ t. String.◌∷◌ c t) (uri_path-whole s (ground arith)))
]

is_path-append : (s t : String) → is_path s ≡ true → is_path t ≡ true → is_path (s +++ t) ≡ true
is_path-append String.[] t h k = rw (nil-append t) k
is_path-append (String.◌∷◌ c s) t h k = elim (Bool-cases (ends_path c)) [
  | inl ends ↦ absurd (ground arith)
  | inr goes ↦ rw (cons-append c s t, goes) (is_path-append s t (ground arith) k)
]

-- What a server that serves a collection at the path reads in a path.
abbrev pub read_target : Request → String → Option Target
read_target r path = at_path (strip_prefix r.url_path path)

module _ {T J Body : Type 0} where
  abbrev pub target : Call T J Body → Target
  target (list_call lp) = (none, none)
  target (list_metadata_call lp) = (none, none)
  target (watch_call wp ver) = (none, none)
  target (watch_metadata_call wp ver) = (none, none)
  target (get_call name gp) = (some name, none)
  target (get_metadata_call name gp) = (some name, none)
  target (create_call pp body) = (none, none)
  target (delete_call name dp) = (some name, none)
  target (delete_collection_call dp lp) = (none, none)
  target (patch_call name pp p) = (some name, none)
  target (patch_metadata_call name pp p) = (some name, none)
  target (replace_call name pp body) = (some name, none)
  target (get_subresource_call sub name) = (some name, some sub)
  target (create_subresource_call sub name pp body) = (some name, some sub)
  target (replace_subresource_call sub name pp body) = (some name, some sub)
  target (patch_subresource_call sub name pp p) = (some name, some sub)

  abbrev pub method_of : Call T J Body → Method
  method_of (list_call lp) = get
  method_of (list_metadata_call lp) = get
  method_of (watch_call wp ver) = get
  method_of (watch_metadata_call wp ver) = get
  method_of (get_call name gp) = get
  method_of (get_metadata_call name gp) = get
  method_of (create_call pp body) = post
  method_of (delete_call name dp) = delete
  method_of (delete_collection_call dp lp) = delete
  method_of (patch_call name pp p) = patch
  method_of (patch_metadata_call name pp p) = patch
  method_of (replace_call name pp body) = put
  method_of (get_subresource_call sub name) = get
  method_of (create_subresource_call sub name pp body) = post
  method_of (replace_subresource_call sub name pp body) = put
  method_of (patch_subresource_call sub name pp p) = patch

abbrev plain_name : Option String → Bool
plain_name none = true
plain_name (some name) = if holds_slash name then false else is_path name

abbrev plain_path : Option String → Bool
plain_path none = true
plain_path (some path) = is_path path

-- The name of the resource holds no slash, and neither it nor the subresource a character that ends the
-- path.
abbrev pub is_plain : Target → Bool
is_plain t = plain_name t.0 && plain_path t.1

no_slash : (name : String) → plain_name (some name) ≡ true → holds_slash name ≡ false
no_slash name h = ground arith

read-collection : (r : Request) → read_target r r.url_path ≡ some (none, none)
read-collection r =
    ap at_path (
      ap (strip_prefix r.url_path) (sym (append-nil r.url_path))
      ∙ strip_prefix-append r.url_path "")

read-below :
    (r : Request) (path : String)
    → read_target r (r.url_path +++ "/" +++ path) ≡ segments (split_slash path)
read-below r path =
    ap at_path (strip_prefix-append r.url_path ("/" +++ path))
    ∙ ap (below_slash ("/" +++ path)) (strip_prefix-append "/" path)

-- Below a path that is all path comes what is all path.
read-uri :
    (r : Request) (path : String)
    → is_path r.url_path ≡ true
    → is_path path ≡ true
    → read_target r (uri_path (r.url_path +++ "/" +++ path)) ≡ segments (split_slash path)
read-uri r path whole more =
    ap (read_target r) (
      uri_path-whole _
        (is_path-append r.url_path ("/" +++ path) whole (is_path-append "/" path refl more)))
    ∙ read-below r path

module _ {T J Body : Type 0} (c : Codec T J Body) (r : Request)
    (whole : is_path r.url_path ≡ true) where
  abbrev Arrives : Target → Method → HttpRequest Body → Type 0
  Arrives t method req = (read_target r (uri_path req.path) ≡ some t) × (req.method ≡ method)

  abbrev pub Reaches : Target → Method → Built c → Type 0
  Reaches t method (ok req) = Arrives t method req
  Reaches t method (err e) = Unit

  to_collection : read_target r (uri_path r.url_path) ≡ some (none, none)
  to_collection = ap (read_target r) (uri_path-whole r.url_path whole) ∙ read-collection r

  to_named :
      (name : String)
      → is_plain (some name, none) ≡ true
      → read_target r (uri_path (named r name)) ≡ some (some name, none)
  to_named name plain =
      let alone : plain_name (some name) ≡ true = ground arith in
      read-uri r name whole (ground arith)
      ∙ ap segments (split_slash-version name (no_slash name alone))

  to_subresource :
      (name sub : String)
      → is_plain (some name, some sub) ≡ true
      → read_target r (uri_path (subresource_path r name sub)) ≡ some (some name, some sub)
  to_subresource name sub plain =
      let alone : plain_name (some name) ≡ true = ground arith in
      let first : is_path name ≡ true = ground arith in
      let second : is_path sub ≡ true = ground arith in
      read-uri r (name +++ "/" +++ sub) whole
        (is_path-append name ("/" +++ sub) first (is_path-append "/" sub refl second))
      ∙ ap segments (split_slash-group name sub (no_slash name alone))

  refused-Reaches :
      (t : Target) (method : Method) (req : HttpRequest Body) (o : Option String)
      → Arrives t method req
      → Reaches t method (refused c req o)
  refused-Reaches t method req none h = h
  refused-Reaches t method req (some e) h = tt

  finish_request-Reaches :
      (t : Target) (method : Method) (req : HttpRequest Body)
      → Arrives t method req
      → Reaches t method (finish_request c req)
  finish_request-Reaches t method req h = refused-Reaches t method req (c.refuses req) h

  checked-Reaches :
      (t : Target) (method : Method) (x : Result ValidationError (Unit {0})) (next : Built c)
      → Reaches t method next
      → Reaches t method (checked x >>= λ u. next)
  checked-Reaches t method (ok u) next h = h
  checked-Reaches t method (err e) next h = tt

  body-Reaches :
      (t : Target) (method : Method) (x : Result Error Body) (next : Body → HttpRequest Body)
      → ((body : Body) → Arrives t method (next body))
      → Reaches t method (x >>= λ body. finish_request c (next body))
  body-Reaches t method (ok body) next h = finish_request-Reaches t method (next body) (h body)
  body-Reaches t method (err e) next h = tt

  -- Whatever the libraries do, a call whose resource has a name without a slash, and whose names and
  -- collection hold neither a question mark nor a number sign, is sent, if it is, with the method of
  -- its operation, and to a target from whose path its resource and subresource are read back.
  pub perform-Reaches :
      (call : Call T J Body)
      → is_plain (target call) ≡ true
      → Reaches (target call) (method_of call) (perform c r call)
  unfolding perform list watch get_one create delete_one delete_collection patch_one replace
      get_subresource create_subresource patch_subresource replace_subresource get_metadata
      list_metadata watch_metadata patch_metadata
  perform-Reaches (list_call lp) plain =
      checked-Reaches _ _ (validate_list lp) _ (finish_request-Reaches _ _ _ (to_collection, refl))
  perform-Reaches (list_metadata_call lp) plain =
      checked-Reaches _ _ (validate_list lp) _ (finish_request-Reaches _ _ _ (to_collection, refl))
  perform-Reaches (watch_call wp ver) plain =
      checked-Reaches _ _ (validate_watch wp) _ (finish_request-Reaches _ _ _ (to_collection, refl))
  perform-Reaches (watch_metadata_call wp ver) plain =
      checked-Reaches _ _ (validate_watch wp) _ (finish_request-Reaches _ _ _ (to_collection, refl))
  perform-Reaches (get_call name gp) plain =
      finish_request-Reaches _ _ _ (to_named name plain, refl)
  perform-Reaches (get_metadata_call name gp) plain =
      finish_request-Reaches _ _ _ (to_named name plain, refl)
  perform-Reaches (create_call pp body) plain =
      checked-Reaches _ _ (validate_post pp) _ (finish_request-Reaches _ _ _ (to_collection, refl))
  perform-Reaches (delete_call name dp) plain =
      body-Reaches _ _ _ _ λ body. (to_named name plain, refl)
  perform-Reaches (delete_collection_call dp lp) plain =
      body-Reaches _ _ _ _ λ body. (to_collection, refl)
  perform-Reaches (patch_call name pp p) plain =
      checked-Reaches _ _ (validate_patch pp p) _
        (body-Reaches _ _ _ _ λ body. (to_named name plain, refl))
  perform-Reaches (patch_metadata_call name pp p) plain =
      checked-Reaches _ _ (validate_patch pp p) _
        (body-Reaches _ _ _ _ λ body. (to_named name plain, refl))
  perform-Reaches (replace_call name pp body) plain =
      finish_request-Reaches _ _ _ (to_named name plain, refl)
  perform-Reaches (get_subresource_call sub name) plain =
      finish_request-Reaches _ _ _ (to_subresource name sub plain, refl)
  perform-Reaches (create_subresource_call sub name pp body) plain =
      finish_request-Reaches _ _ _ (to_subresource name sub plain, refl)
  perform-Reaches (replace_subresource_call sub name pp body) plain =
      finish_request-Reaches _ _ _ (to_subresource name sub plain, refl)
  perform-Reaches (patch_subresource_call sub name pp p) plain =
      checked-Reaches _ _ (validate_patch pp p) _
        (body-Reaches _ _ _ _ λ body. (to_subresource name sub plain, refl))
