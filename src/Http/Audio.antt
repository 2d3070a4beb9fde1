-- ===== src/Http/Audio.antt =====
-- The life of a served file.
use ai_assistant_driver.Common.{
  ◌≡◌, refl, ap, ◌∙◌, sym, Bool, true, false, none, some, [], ◌∷◌, ◌++◌, append_assoc, append-nil,
  is_nil, if◌then◌else◌, Text, codes, ◌==◌, All, arith,
}
use ai_assistant_driver.Common.Maps.{text_key, find, put, remove, find-put_self, find-remove_self}
use ai_assistant_driver.Http.{
  Server, slash, trim_slashes, after_slash, base, audio_prefix, serve_wav, clean_up, start, url,
  Method, Request, problem, serve_file,
}
use ai_assistant_driver.Http.Handlers.{answer_file, handle_audio}

abbrev NoSlash : Text → Type 0
NoSlash = All (λ c. (c == slash) ≡ false)

after_slash-part :
    (name part rest : Text)
    → NoSlash name
    → after_slash part (name ++ rest) ≡ after_slash (part ++ name) rest
unfolding after_slash
after_slash-part [] part rest h = ap (λ p. after_slash p rest) (sym (append-nil part))
after_slash-part (c ∷ name) part rest (hc, h) =
    rw (after_slash, hc)
      (after_slash-part name (part ++ c ∷ []) rest h
        ∙ ap (λ p. after_slash p rest) (append_assoc part (c ∷ []) name))

after_slash-dir :
    (dir name part : Text) → NoSlash name → after_slash part (dir ++ slash ∷ name) ≡ name
unfolding after_slash
after_slash-dir [] name part h =
    ap (after_slash []) (sym (append-nil name)) ∙ after_slash-part name [] [] h
after_slash-dir (c ∷ dir) name part h =
    after_slash-dir dir name (if c == slash then [] else part ++ c ∷ []) h

full-append : (dir name : Text) → is_nil name ≡ false → is_nil (dir ++ name) ≡ false
full-append [] name full = full
full-append (c ∷ dir) name full = refl

trim_slashes-name : (name : Text) → NoSlash name → trim_slashes name ≡ name
unfolding trim_slashes
trim_slashes-name [] h = refl
trim_slashes-name (c ∷ []) (hc, h) = rw hc refl
trim_slashes-name (c ∷ d ∷ name) (hc, h) = rw (trim_slashes-name (d ∷ name) h) refl

trim_slashes-dir :
    (dir name : Text)
    → NoSlash name
    → is_nil name ≡ false
    → trim_slashes (dir ++ name) ≡ dir ++ name
unfolding trim_slashes
trim_slashes-dir [] name h full = trim_slashes-name name h
trim_slashes-dir (c ∷ dir) name h full =
    rw (trim_slashes-dir dir name h full) (rw (full-append dir name full) refl)

-- The base of a path is its last part.
base-dir :
    (dir name : Text) → NoSlash name → is_nil name ≡ false → base (dir ++ slash ∷ name) ≡ name
unfolding base
base-dir dir name h full =
    let kept : trim_slashes (dir ++ slash ∷ name) ≡ dir ++ slash ∷ name =
      ap trim_slashes (sym (append_assoc dir (slash ∷ []) name))
      ∙ trim_slashes-dir (dir ++ slash ∷ []) name h full
      ∙ append_assoc dir (slash ∷ []) name in
    let path : is_nil (dir ++ slash ∷ name) ≡ false = full-append dir (slash ∷ name) refl in
    rw (path, kept, after_slash-dir dir name [] h, full) refl

start_started :
    (listens : Bool) (outbound_ip : Text) (s : Server)
    → s.started ≡ true
    → start listens outbound_ip s ≡ (s, true)
unfolding start
start_started listens outbound_ip s h = ground arith

serve_wav_started :
    (listens : Bool) (outbound_ip path name : Text) (s : Server)
    → s.started ≡ true
    → base path ≡ name
    → serve_wav listens outbound_ip path s
      ≡ (record s { files = put name path s.files }, some (url s ++ (audio_prefix ++ name)))
unfolding serve_wav
serve_wav_started listens outbound_ip path name s h e =
    rw (start_started listens outbound_ip s h) (rw e refl)

handle_audio_found :
    (r : Request) (s : Server) (name path : Text)
    → base r.path ≡ name
    → find name s.files ≡ some path
    → handle_audio r s ≡ serve_file path
unfolding handle_audio
handle_audio_found r s name path e found =
    ap (λ n. answer_file (find n s.files)) e ∙ ap answer_file found

handle_audio_missing :
    (r : Request) (s : Server) (name : Text)
    → base r.path ≡ name
    → find name s.files ≡ none
    → handle_audio r s ≡ problem 404 (codes "Audio file not found")
unfolding handle_audio
handle_audio_missing r s name e missing =
    ap (λ n. answer_file (find n s.files)) e ∙ ap answer_file missing

-- A file that ServeWAV hands out is what a request for the path of its URL gets, whatever the server
-- served before; after the cleanup the answer is that there is no such file.
pub handle_audio-serve_wav :
    (listens : Bool) (outbound_ip dir name : Text) (method : Method) (s : Server)
    → NoSlash name
    → is_nil name ≡ false
    → s.started ≡ true
    → let path = dir ++ slash ∷ name in
      let (s', link) = serve_wav listens outbound_ip path s in
      let r : Request = record { method = method; path = audio_prefix ++ name; body = none } in
      (link ≡ some (url s ++ r.path))
      × (handle_audio r s' ≡ serve_file path)
      × (handle_audio r (clean_up path s') ≡ problem 404 (codes "Audio file not found"))
unfolding clean_up
handle_audio-serve_wav listens outbound_ip dir name method s h full started =
    let path = dir ++ slash ∷ name in
    let of_path = base-dir dir name h full in
    let of_url = base-dir (codes "/api/tts/audio") name h full in
    let r : Request = record { method = method; path = audio_prefix ++ name; body = none } in
    let files = put name path s.files in
    rw (serve_wav_started listens outbound_ip path name s started of_path) (
      refl,
      handle_audio_found r (record s { files = files }) name path of_url
          (find-put_self name path s.files),
      handle_audio_missing r (record s { files = remove (base path) files }) name of_url
          (ap (λ n. find name (remove n files)) of_path ∙ find-remove_self name files),
    )
