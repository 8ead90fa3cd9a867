-- ===== src/Ui/Transfer/Handled.antt =====
-- What the server has done when it answers the first and the last request of an upload.
use ferrobucket.Base.{
  ℕ, ◌*◌, ◌≡◌, refl, sym, ap, subst, ◌∙◌, true, false, none, some, List, [], ◌∷◌, ◌++◌, All, arith,
}
use ferrobucket.Base.Text.{Bytes, codes, str_eq, list_eq}
use ferrobucket.Base.Text.Trim.{trim, trim_start, is_space}
use ferrobucket.Base.Int.{ℤ}
use ferrobucket.Error.{Outcome, ok, err}
use ferrobucket.Act.{World}
use ferrobucket.Act.After.{After-ok}
use ferrobucket.Meta.{ObjectMeta}
use ferrobucket.Host.{Host, is_uuid_byte}
use ferrobucket.Layout.{FsStorage}
use ferrobucket.Storage.Uploads.{complete_multipart_upload, create_multipart_upload}
use ferrobucket.Storage.Uploads.Create.{After-create_multipart_upload, Created}
use ferrobucket.Console.{Response, answer, text_response, status_ok, bad_request}
use ferrobucket.Console.ContentType.{resolve_content_type}
use ferrobucket.Console.Upload.{
  Arm, Web, upload_handler, dispatch, arm_of, refused, complete_with, parts_of, read_parts,
  parsed_parts,
}
use ferrobucket.Ui.Transfer.{Browser, create, complete, text, parts_json}
use ferrobucket.Ui.Transfer.Routed.{Routed, params_of, handled, answer-ok, is_success}
use mathlib.Core.List.{reverse, reverse_aux, reverse-reverse}
use ferrobucket.Server.Convert.{StreamingBlob}

trim_start-Lacks : (s : Bytes) → All (λ c. is_space c ≡ false) s → trim_start s ≡ s
unfolding trim_start
trim_start-Lacks [] h = refl
trim_start-Lacks (c ∷ s) (hc, h) = rw hc refl

All-reverse_aux : (P : ℕ → Type 0) (s t : Bytes) → All P s → All P t → All P (reverse_aux s t)
All-reverse_aux P [] t hs ht = ht
All-reverse_aux P (c ∷ s) t (hc, hs) ht = All-reverse_aux P s (c ∷ t) hs (hc, ht)

not_space : (s : Bytes) → All (λ c. is_uuid_byte c ≡ true) s → All (λ c. is_space c ≡ false) s
not_space [] h = tt
not_space (c ∷ s) (hc, h) = (ground arith, not_space s h)

-- An identifier has no white space round it.
pub trim-uuid : (s : Bytes) → All (λ c. is_uuid_byte c ≡ true) s → trim s ≡ s
unfolding trim
trim-uuid s h =
    rw
      (
        trim_start-Lacks s (not_space s h),
        trim_start-Lacks (reverse s)
            (All-reverse_aux (λ c. is_space c ≡ false) s [] (not_space s h) tt),
      )
      (reverse-reverse s)

arm_of-create : arm_of (params_of create) ≡ Arm.create
unfolding arm_of params_of str_eq list_eq
arm_of-create = refl

arm_of-complete : (upload_id : Bytes) → arm_of (params_of (complete upload_id)) ≡ Arm.complete
unfolding arm_of params_of str_eq list_eq
arm_of-complete upload_id = refl

module _ {H E : Type 0} (host : Host H) (web : Web E) (storage : FsStorage) (bucket key : Bytes)
    (browser : Browser World) (routed : Routed host web storage bucket key browser) where
  abbrev pub create_handled : World → Response × World
  create_handled w = handled host web storage bucket key browser routed create none w

  pub handled-create :
      (w : World)
      → is_success (create_handled w).0.status ≡ true
      → Created host storage bucket key
          (resolve_content_type key none)
          w.disk
          (create_handled w).0.body
          (create_handled w).1
  handled-create w h =
      let (upload_id, made, same) =
        answer-ok host web storage
          (create_multipart_upload host storage bucket key (resolve_content_type key none))
          (λ id. text_response status_ok id) w (ap (λ x. is_success x.0.status) (sym here) ∙ h) in
      subst
        (λ x. Created host storage bucket key (resolve_content_type key none) w.disk x.0.body x.1)
        (sym (here ∙ same))
        (After-ok
          (After-create_multipart_upload host storage bucket key (resolve_content_type key none) w)
          made)
    where
      here :
          create_handled w
          ≡ answer
              (create_multipart_upload host storage bucket key (resolve_content_type key none))
              (λ id. text_response status_ok id)
              (refused host web storage)
              w
      here = unfold upload_handler dispatch in rw arm_of-create refl

  abbrev pub complete_handled : Bytes → List ℤ → World → Response × World
  complete_handled upload_id ns w =
      handled host web storage bucket key browser routed (complete upload_id)
        (some (text (parts_json ns))) w

  complete_with-ok :
      (upload_id : Bytes) (o : Outcome Response (List ℤ)) (w : World)
      → ((r : Response) → o ≡ err r → is_success r.status ≡ false)
      → is_success (complete_with host web storage key upload_id o w).0.status ≡ true
      → (ns : List ℤ) × (o ≡ ok ns)
  complete_with-ok upload_id (ok ns) w bad h = (ns, refl)
  complete_with-ok upload_id (err r) w bad h = absurd (cc (bad r refl, h))

  read_parts-json :
      (o : Outcome Bytes Bytes) (ns ms : List ℤ)
      → ((b : Bytes) → o ≡ ok b → parts_json ns ≡ b)
      → web.from_slice (parts_json ns) ≡ ok ns
      → read_parts host web storage o ≡ ok ms
      → ms ≡ ns
  read_parts-json (err e) ns ms same json h = absurd cc
  read_parts-json (ok b) ns ms same json h =
      parsed_ok (ap web.from_slice (sym (same b refl)) ∙ json) h
    where
      parsed_ok :
          {o : Outcome Bytes (List ℤ)}
          → o ≡ ok ns
          → parsed_parts host web storage o ≡ ok ms
          → ms ≡ ns
      parsed_ok e h = cc (ap (parsed_parts host web storage) e, h)

  parts_of-json :
      (ns ms : List ℤ)
      → web.from_slice (parts_json ns) ≡ ok ns
      → parts_of host web storage (routed.chunks (parts_json ns)) ≡ ok ms
      → ms ≡ ns
  unfolding parts_of
  parts_of-json ns ms json h =
      read_parts-json _ ns ms
        (λ b e. sym (routed.chunks_lem (parts_json ns)) ∙ web.to_bytes_lem _ _ e) json h

  read_parts-err :
      (o : Outcome Bytes Bytes) (r : Response)
      → read_parts host web storage o ≡ err r
      → is_success r.status ≡ false
  read_parts-err (err e) r h =
      let same : text_response bad_request (codes "failed to read body: " ++ e) ≡ r = cc in
      subst (λ x. is_success x.status ≡ false) same refl
  read_parts-err (ok b) r h = parsed_err (web.from_slice b) h
    where
      parsed_err :
          (o : Outcome Bytes (List ℤ))
          → parsed_parts host web storage o ≡ err r
          → is_success r.status ≡ false
      parsed_err (err e) h =
          let same : text_response bad_request (codes "invalid parts JSON: " ++ e) ≡ r = cc in
          subst (λ x. is_success x.status ≡ false) same refl
      parsed_err (ok ns) h = absurd cc

  parts_of-err :
      (body : StreamingBlob E) (r : Response)
      → parts_of host web storage body ≡ err r
      → is_success r.status ≡ false
  unfolding parts_of
  parts_of-err body r h = read_parts-err (web.to_bytes body (1024 * 1024)) r h

  pub handled_complete :
      (upload_id : Bytes) (ns : List ℤ) (w : World)
      → web.from_slice (parts_json ns) ≡ ok ns
      → is_success (complete_handled upload_id ns w).0.status ≡ true
      → (meta : ObjectMeta) × ((complete_multipart_upload host storage key upload_id ns w).0
          ≡ ok meta)
        × ((complete_handled upload_id ns w).1
            ≡ (complete_multipart_upload host storage key upload_id ns w).1)
  handled_complete upload_id ns w json h =
      let (ms, read) =
        complete_with-ok upload_id (parts_of host web storage sent_body) w (parts_of-err sent_body)
          (ap (λ x. is_success x.0.status) (sym here) ∙ h) in
      let arrived : parts_of host web storage sent_body ≡ ok ns =
        read ∙ ap ok (parts_of-json ns ms json read) in
      let completed : complete_handled upload_id ns w
          ≡ answer (complete_multipart_upload host storage key upload_id ns)
              (λ meta. text_response status_ok []) (refused host web storage) w =
        here ∙ ap (λ o. complete_with host web storage key upload_id o w) arrived in
      let (meta, stored, same) =
        answer-ok host web storage (complete_multipart_upload host storage key upload_id ns)
          (λ meta. text_response status_ok []) w
          (ap (λ x. is_success x.0.status) (sym completed) ∙ h) in
      (meta, stored, ap (λ x. x.1) (completed ∙ same))
    where
      sent_body : StreamingBlob E
      sent_body = routed.chunks (parts_json ns)

      here :
          complete_handled upload_id ns w
          ≡ complete_with host web storage key upload_id (parts_of host web storage sent_body) w
      here = unfold upload_handler dispatch params_of in rw (arm_of-complete upload_id) refl
