-- ===== src/ConfigEditor/Save/Accepted.antt =====
-- `validateBeforeSave` and its description.
use mathlib.Core.Path.{subst}
use offckb.Base.{
  ◌≡◌, ◌≢◌, ◌↔◌, refl, sym, ap, ◌∙◌, Bool, true, false, not, ◌&&◌, some, List, [], ◌∷◌, map, any,
  All, Result, ok, ◌>>=◌, ◌>>◌, guard, >>=-eq-ok, guard-eq-ok, arith, length, length-append,
}
use offckb.Base.Text.{Text, text, trim, contains}
use offckb.Value.{Value, Items, str, arr, items}
use offckb.Value.Paths.{get_by_path}
use offckb.ConfigEditor.{Platform, EditError, Editor}
use offckb.ConfigEditor.Inputs.{
  is_non_empty_string, is_string_array, validate_host_port, validate_http_url,
}
use offckb.ConfigEditor.Inputs.Laws.{IsHostPort, validate_host_port_iff}
use offckb.ConfigEditor.Save.{
  refuse, require_path, string_of, strings_of, is_blank, no_items, listen_address_path,
  modules_path, protocols_path, rpc_url_path, validate_before_save,
}
use offckb.ConfigEditor.Save.Checks.{
  validate_http_url_iff, HasText, HasTexts, IsNamed, IsSavable, is_non_empty_string_complete,
  any-is_blank_iff, is_string_array_complete, no_items_iff, and_iff, has_text, has_texts,
  require_path_iff,
}

-- One check at the head of a chain that passes.
Done : Result EditError (Unit {0}) → Type 0
Done r = r ≡ ok tt

guard_step :
    (b : Bool) (m : Text) (k : Result EditError (Unit {0}))
    → Done (guard b (refuse m) >> k)
    → (b ≡ true) × Done k
unfolding Done
guard_step true m k h = (refl, h)
guard_step false m k h = absurd (ground arith)

text_step :
    (t : Value) (path : List Text) (m : Text) (k : Value → Result EditError (Unit {0}))
    → Done (require_path t path is_non_empty_string m >>= k)
    → (v : Value) × HasText t path (string_of v) × IsNamed (string_of v) × Done (k v)
unfolding Done
text_step t path m k h =
    let (v, passes, rest) = >>=-eq-ok (require_path t path is_non_empty_string m) k h in
    let (has, named) = has_text t path m v passes in (v, has, named, rest)

texts_step :
    (t : Value) (path : List Text) (m : Text) (k : Value → Result EditError (Unit {0}))
    → Done (require_path t path is_string_array m >>= k)
    → (v : Value) × HasTexts t path (strings_of v) × Done (k v)
unfolding Done
texts_step t path m k h =
    let (v, passes, rest) = >>=-eq-ok (require_path t path is_string_array m) k h in
    (v, has_texts t path m v passes, rest)

validate_before_save_sound :
    (p : Platform) (e : Editor) → validate_before_save p e ≡ ok tt → IsSavable p e
unfolding validate_before_save Done
validate_before_save_sound p e h0 =
    let (a, has_address, _, h1) =
      text_step e.ckb_config listen_address_path (text "listen_address type") _ h0 in
    let (host_port, h2) =
      guard_step (validate_host_port p (string_of a)) (text "listen_address format") _ h1 in
    let (ms, has_modules, h3) = texts_step e.ckb_config modules_path (text "modules type") _ h2 in
    let (some_module, h4) =
      guard_step (not (no_items (strings_of ms))) (text "modules empty") _ h3 in
    let (modules_named, h5) =
      guard_step (not (any is_blank (strings_of ms))) (text "module name empty") _ h4 in
    let (ps, has_protocols, h6) =
      texts_step e.ckb_config protocols_path (text "protocols type") _ h5 in
    let (needed, h7) =
      guard_step
        (contains (strings_of ps) (text "Sync") && contains (strings_of ps) (text "Identify"))
        (text "protocols missing") _ h6 in
    let (protocols_named, h8) =
      guard_step (not (any is_blank (strings_of ps))) (text "protocol name empty") _ h7 in
    let (u, has_url, url_named, h9) =
      text_step e.miner_config rpc_url_path (text "rpc_url type") _ h8 in
    let http =
      guard-eq-ok (validate_http_url p (string_of u)) (refuse (text "rpc_url format")) h9 in
    let both =
      (and_iff (contains (strings_of ps) (text "Sync"))
          (contains (strings_of ps) (text "Identify"))).0
        needed in
    record {
      listen_address = string_of a;
      modules = strings_of ms;
      protocols = strings_of ps;
      rpc_url = string_of u;
      has_listen_address = has_address;
      is_host_port = (validate_host_port_iff p (string_of a)).0 host_port;
      has_modules = has_modules;
      some_module = (no_items_iff (strings_of ms)).0 some_module;
      modules_named = (any-is_blank_iff (strings_of ms)).0 modules_named;
      has_protocols = has_protocols;
      has_sync = both.0;
      has_identify = both.1;
      protocols_named = (any-is_blank_iff (strings_of ps)).0 protocols_named;
      has_rpc_url = has_url;
      url_named = url_named;
      is_http = (validate_http_url_iff p (string_of u)).0 http;
    }

guard_back :
    (b : Bool) (m : Text) (k : Result EditError (Unit {0}))
    → b ≡ true
    → Done k
    → Done (guard b (refuse m) >> k)
unfolding Done
guard_back b m k h d = rw h d

text_back :
    (t : Value) (path : List Text) (m : Text) (k : Value → Result EditError (Unit {0})) (s : Text)
    → HasText t path s
    → IsNamed s
    → Done (k (str s))
    → Done (require_path t path is_non_empty_string m >>= k)
unfolding Done
text_back t path m k s h n d =
    rw
      ((require_path_iff t path is_non_empty_string m (str s)).1
        (h, is_non_empty_string_complete s n))
      d

texts_back :
    (t : Value) (path : List Text) (m : Text) (k : Value → Result EditError (Unit {0})) (vs : Items)
    (ns : List Text)
    → get_by_path t path ≡ some (arr vs)
    → items vs ≡ map str ns
    → Done (k (arr vs))
    → Done (require_path t path is_string_array m >>= k)
unfolding Done
texts_back t path m k vs ns h e d =
    rw
      ((require_path_iff t path is_string_array m (arr vs)).1
        (h, (is_string_array_complete vs ns e).0))
      d

host_port-ne : (p : Platform) (t : Text) → IsHostPort p t → t ≢ []
host_port-ne p t (host, port, n, split, _, _, _, _, _, _) e =
    absurd (omega (arith, ap length (sym split ∙ e), length-append host (b':' ∷ port)))

validate_before_save_complete :
    (p : Platform) (e : Editor) → IsSavable p e → validate_before_save p e ≡ ok tt
unfolding validate_before_save Done
validate_before_save_complete p e s =
    let (ms, found, texts) = s.has_modules in
    let (ps, found', texts') = s.has_protocols in
    let m_eq = sym ((is_string_array_complete ms s.modules texts).1) in
    let p_eq = sym ((is_string_array_complete ps s.protocols texts').1) in
    let modules_of = strings_of (arr ms) in
    let protocols_of = strings_of (arr ps) in
    text_back e.ckb_config listen_address_path (text "listen_address type") _ s.listen_address
      s.has_listen_address (host_port-ne p (trim s.listen_address) s.is_host_port)
      (guard_back (validate_host_port p s.listen_address) (text "listen_address format") _
        ((validate_host_port_iff p s.listen_address).1 s.is_host_port)
        (texts_back e.ckb_config modules_path (text "modules type") _ ms s.modules found texts (
          guard_back (not (no_items modules_of)) (text "modules empty") _
            ((no_items_iff modules_of).1 (subst (λ ns. ns ≢ []) m_eq s.some_module))
            (guard_back (not (any is_blank modules_of)) (text "module name empty") _
              ((any-is_blank_iff modules_of).1 (subst (All IsNamed) m_eq s.modules_named))
              (texts_back e.ckb_config protocols_path (text "protocols type") _ ps s.protocols
                found' texts'
                (guard_back
                  (contains protocols_of (text "Sync") && contains protocols_of (text "Identify"))
                  (text "protocols missing") _
                  ((and_iff (contains protocols_of (text "Sync"))
                      (contains protocols_of (text "Identify"))).1
                    (
                      subst (λ ns. contains ns (text "Sync") ≡ true) p_eq s.has_sync,
                      subst (λ ns. contains ns (text "Identify") ≡ true) p_eq s.has_identify,
                    ))
                  (guard_back (not (any is_blank protocols_of)) (text "protocol name empty") _
                    ((any-is_blank_iff protocols_of).1 (subst (All IsNamed) p_eq s.protocols_named))
                    (text_back e.miner_config rpc_url_path (text "rpc_url type") _ s.rpc_url
                      s.has_rpc_url s.url_named
                      (rw ((validate_http_url_iff p s.rpc_url).1 s.is_http) refl)))))))))

-- The checks before a save pass for exactly the configurations that are described as savable: the
-- listen address reads as a host and a port, the modules and the protocols are texts that are not
-- blank, there is a module, Sync and Identify are among the protocols, and the URL is http or https.
pub validate_before_save_iff :
    (p : Platform) (e : Editor) → (validate_before_save p e ≡ ok tt) ↔ IsSavable p e
validate_before_save_iff p e = (validate_before_save_sound p e, validate_before_save_complete p e)
