-- ===== src/Core/Request.antt =====
-- kube-core/src/request.rs: the requests of calls. A target is kept as the text that is formatted before
-- the question mark of the query, and the pairs of the query, if it has that mark; what http, serde_json
-- and form_urlencoded do with them is a parameter. Where the path of a target ends once http has parsed
-- it is told in Request.Target.
pub mod Checks
pub mod Target
use kube.Prelude.{
  ◌>>=◌, Option, none, some, [], ◌∷◌, ◌++◌, String, string_eq, ◌+++◌, Result, ok, err,
  if◌then◌else◌,
}
use kube.Core.Query.{ValidationError, text, Query, append_text}
use kube.Core.ListParams.{ListParams, validate as validate_list, populate_qp as populate_list_qp}
use kube.Core.WatchParams.{
  WatchParams, validate as validate_watch, populate_qp as populate_watch_qp,
}
use kube.Core.DeleteParams.{DeleteParams, is_default}
use kube.Core.PatchParams.{
  GetParams, PostParams, populate_post_qp, validate_post, Patch, PatchParams, content_type,
  validate as validate_patch, populate_qp as populate_patch_qp,
}

pub data Error : Type 0 where
  build_request serialize_body : String → Error
  validation : ValidationError → Error

pub data Method : Type 0 where
  get post put patch delete : Method

abbrev pub json_mime : String
json_mime = "application/json"

abbrev pub json_metadata_mime : String
json_metadata_mime = "application/json;as=PartialObjectMetadata;g=meta.k8s.io;v=v1"

abbrev pub json_metadata_list_mime : String
json_metadata_list_mime = "application/json;as=PartialObjectMetadataList;g=meta.k8s.io;v=v1"

pub record HttpRequest (Body : Type 0) : Type 0 where
  pub method : Method
  pub path : String
  pub query : Option Query
  pub accept : Option String
  pub content_type : Option String
  pub body : Body

-- The libraries: an empty body, the bodies of patches and of delete parameters, and why a request is not
-- built, if it is not.
pub record Codec (T J Body : Type 0) : Type 0 where
  pub empty_body : Body
  pub serialize : Patch T J → Result String Body
  pub serialize_delete : DeleteParams → Result String Body
  pub refuses : HttpRequest Body → Option String

pub record Request : Type 0 where
  pub url_path : String

abbrev pub checked : Result ValidationError (Unit {0}) → Result Error (Unit {0})
checked (ok u) = ok u
checked (err e) = err (validation e)

abbrev pub serialized : {Body : Type 0} → Result String Body → Result Error Body
serialized (ok body) = ok body
serialized (err e) = err (serialize_body e)

-- A resource, and a subresource.
abbrev pub named : Request → String → String
named r name = r.url_path +++ "/" +++ name

abbrev pub subresource_path : Request → String → String → String
subresource_path r name subresource_name = r.url_path +++ "/" +++ name +++ "/" +++ subresource_name

abbrev version_query : Option String → Option Query
version_query none = none
version_query (some rv) = some (("resourceVersion", text rv) ∷ [])

module _ {T J Body : Type 0} (c : Codec T J Body) where
  abbrev pub Built : Type 0
  Built = Result Error (HttpRequest Body)

  abbrev pub refused : HttpRequest Body → Option String → Built
  refused req none = ok req
  refused req (some e) = err (build_request e)

  -- `body`, the last step.
  abbrev pub finish_request : HttpRequest Body → Built
  finish_request req = refused req (c.refuses req)

  abbrev pub read : String → Option Query → Option String → Option String → HttpRequest Body
  read path query accept content = record {
    method = get;
    path = path;
    query = query;
    accept = accept;
    content_type = content;
    body = c.empty_body;
  }

  abbrev pub write : Method → String → Query → Body → HttpRequest Body
  write method path query body = record {
    method = method;
    path = path;
    query = some query;
    accept = none;
    content_type = some json_mime;
    body = body;
  }

  unfoldable pub list : Request → ListParams → Built
  unfolding validate_list populate_list_qp
  list r lp = do
    _ ← checked (validate_list lp)
    finish_request (read r.url_path (some (populate_list_qp lp [])) none none)

  abbrev watch_query : WatchParams → String → Query
  watch_query wp ver = append_text "resourceVersion" (some ver) (populate_watch_qp wp [])

  unfoldable pub watch : Request → WatchParams → String → Built
  unfolding validate_watch populate_watch_qp
  watch r wp ver = do
    _ ← checked (validate_watch wp)
    finish_request (read r.url_path (some (watch_query wp ver)) none none)

  unfoldable pub get_one : Request → String → GetParams → Built
  get_one r name gp =
      finish_request (read (named r name) (version_query gp.resource_version) none none)

  unfoldable pub create : Request → PostParams → Body → Built
  unfolding validate_post populate_post_qp
  create r pp body = do
    _ ← checked (validate_post pp)
    finish_request (write post r.url_path (populate_post_qp pp []) body)

  unfoldable pub delete_one : Request → String → DeleteParams → Built
  delete_one r name dp = do
    body ← serialized (c.serialize_delete dp)
    finish_request (write delete (named r name) [] body)

  unfoldable pub delete_collection : Request → DeleteParams → ListParams → Built
  unfolding is_default
  delete_collection r dp lp = do
    body ← if is_default dp then ok c.empty_body else serialized (c.serialize_delete dp)
    finish_request (
        write delete r.url_path
          (append_text "labelSelector" lp.label_selector
            (append_text "fieldSelector" lp.field_selector []))
          body)

  abbrev patch_at : String → String → PatchParams → Patch T J → Built
  patch_at accept path pp p = do
    _ ← checked (validate_patch pp p)
    body ← serialized (c.serialize p)
    finish_request (record {
      method = patch;
      path = path;
      query = some (populate_patch_qp pp []);
      accept = some accept;
      content_type = some (content_type p);
      body = body;
    })

  unfoldable pub patch_one : Request → String → PatchParams → Patch T J → Built
  unfolding validate_patch populate_patch_qp content_type
  patch_one r name pp p = patch_at json_mime (named r name) pp p

  unfoldable pub replace : Request → String → PostParams → Body → Built
  unfolding populate_post_qp
  replace r name pp body = finish_request (write put (named r name) (populate_post_qp pp []) body)

  unfoldable pub get_subresource : Request → String → String → Built
  get_subresource r subresource_name name =
      finish_request (read (subresource_path r name subresource_name) none none none)

  unfoldable pub create_subresource : Request → String → String → PostParams → Body → Built
  unfolding populate_post_qp
  create_subresource r subresource_name name pp body =
      finish_request
        (write post (subresource_path r name subresource_name) (populate_post_qp pp []) body)

  unfoldable pub patch_subresource : Request → String → String → PatchParams → Patch T J → Built
  unfolding validate_patch populate_patch_qp content_type
  patch_subresource r subresource_name name pp p =
      patch_at json_mime (subresource_path r name subresource_name) pp p

  unfoldable pub replace_subresource : Request → String → String → PostParams → Body → Built
  unfolding populate_post_qp
  replace_subresource r subresource_name name pp body =
      finish_request
        (write put (subresource_path r name subresource_name) (populate_post_qp pp []) body)

  unfoldable pub get_metadata : Request → String → GetParams → Built
  get_metadata r name gp = finish_request (
      read (named r name) (version_query gp.resource_version) (some json_metadata_mime)
        (some json_mime))

  unfoldable pub list_metadata : Request → ListParams → Built
  unfolding validate_list populate_list_qp
  list_metadata r lp = do
    _ ← checked (validate_list lp)
    finish_request (
        read r.url_path (some (populate_list_qp lp [])) (some json_metadata_list_mime)
          (some json_mime))

  unfoldable pub watch_metadata : Request → WatchParams → String → Built
  unfolding validate_watch populate_watch_qp
  watch_metadata r wp ver = do
    _ ← checked (validate_watch wp)
    finish_request
        (read r.url_path (some (watch_query wp ver)) (some json_metadata_mime) (some json_mime))

  unfoldable pub patch_metadata : Request → String → PatchParams → Patch T J → Built
  unfolding validate_patch populate_patch_qp content_type
  patch_metadata r name pp p = patch_at json_metadata_mime (named r name) pp p
