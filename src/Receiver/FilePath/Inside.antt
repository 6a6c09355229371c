-- ===== src/Receiver/FilePath/Inside.antt =====
-- A file that is stored lies in the folder of its type (receiver/src/request_handler/file_processors).
use asapo.Base.{
  ℕ, ◌≡◌, ◌≢◌, refl, ap, sym, ◌∙◌, ◌⊎◌, inl, inr, Bool, true, false, List, [], ◌∷◌, ◌++◌, Option,
  none, some, ◌==◌, if◌then◌else◌, All, All-map, if_both, arith, Bool-cases, State, some_inj, Text,
  same_text, same_text→≡,
}
use asapo.Receiver.Request.{ReceiverError, bad_request}
use asapo.Receiver.Authorization.{SourceType}
use asapo.Receiver.FilePath.{
  FileRequest, FileIo, is_empty, get_file_name, contains_dots, check_file_name_is_absolute,
  put_front, file_folder, get_string_from_source_type, folder_result,
  check_file_folder_corresponds_to_request_source_type, is_offline, get_root_folder_from_request,
  unless_error, get_root_folder, in_folder, write_file, receive_file,
}

-- A path as its first component and the others.
abbrev pub start : ℕ → Text × List Text → Text × List Text
start c (first, others) = if c == b'/' then ([], first ∷ others) else (c ∷ first, others)

abbrev pub components : Text → Text × List Text
components [] = ([], [])
components (c ∷ cs) = start c (components cs)

-- ".."
abbrev pub parent : Text
parent = b'.' ∷ b'.' ∷ []

contains_dots-append : (xs ys : Text) → contains_dots (xs ++ ys) ≡ false → contains_dots xs ≡ false
unfolding contains_dots
contains_dots-append [] ys h = refl
contains_dots-append (a ∷ []) ys h = refl
contains_dots-append (a ∷ b ∷ rest) ys h = ground (arith, contains_dots-append (b ∷ rest) ys)

contains_dots-tail : (c : ℕ) (cs : Text) → contains_dots (c ∷ cs) ≡ false → contains_dots cs ≡ false
unfolding contains_dots
contains_dots-tail c [] h = refl
contains_dots-tail c (b ∷ rest) h = ground arith

first-prefix : (s : Text) → (rest : Text) × (s ≡ (components s).0 ++ rest)
first-prefix [] = ([], refl)
first-prefix (c ∷ cs) = elim (Bool-cases (c == b'/')) [
  | inl e ↦ ((c ∷ cs), rw e refl)
  | inr e ↦ (let (rest, p) = first-prefix cs in (rest, rw e (ap (◌∷◌ c) p)))
]

first-free : (s : Text) → contains_dots s ≡ false → contains_dots (components s).0 ≡ false
first-free s h =
    let (rest, p) = first-prefix s in
    contains_dots-append (components s).0 rest (ap contains_dots (sym p) ∙ h)

others-free :
    (s : Text) → contains_dots s ≡ false → All (λ x. contains_dots x ≡ false) (components s).1
others-free [] h = tt
others-free (c ∷ cs) h =
    let tail = contains_dots-tail c cs h in
    let rest = others-free cs tail in
    elim (Bool-cases (c == b'/')) [ inl e ↦ rw e (first-free cs tail, rest) | inr e ↦ rw e rest ]

-- What has no ".." in it is not "..".
not_parent : (x : Text) → contains_dots x ≡ false → x ≢ parent
unfolding contains_dots
not_parent x h = λ e. (let p : true ≡ false = ap contains_dots (sym e) ∙ h in absurd (ground arith))

at_separator : (c : ℕ) (cs : Text) → (c == b'/') ≡ true → file_folder (c ∷ cs) ≡ some []
unfolding file_folder
at_separator c cs e = rw e refl

past_separator :
    (c : ℕ) (cs : Text) → (c == b'/') ≡ false → file_folder (c ∷ cs) ≡ put_front c (file_folder cs)
unfolding file_folder
past_separator c cs e = rw e refl

put_front-some :
    (c : ℕ) (o : Option Text) (f : Text)
    → put_front c o ≡ some f
    → (g : Text) × ((o ≡ some g) × (f ≡ c ∷ g))
unfolding put_front
put_front-some c none f h = absurd (ground arith)
put_front-some c (some g) f h = (g, (refl, sym (some_inj h)))

file_folder-first : (s f : Text) → file_folder s ≡ some f → f ≡ (components s).0
unfolding file_folder put_front
file_folder-first [] f h = absurd (ground arith)
file_folder-first (c ∷ cs) f h = elim (Bool-cases (c == b'/')) [
  | inl e ↦ rw e (sym (some_inj (sym (at_separator c cs e) ∙ h)))
  | inr e ↦
      (let (g, (p, q)) = put_front-some c (file_folder cs) f (sym (past_separator c cs e) ∙ h) in
        rw e (q ∙ ap (◌∷◌ c) (file_folder-first cs g p)))
]

-- The first component is the folder of the type, and no component leads back to a parent.
abbrev pub LiesInside : SourceType → Text → Type 0
LiesInside type path =
    ((components path).0 ≡ get_string_from_source_type type)
    × (((components path).0 ≢ parent) × All (λ x. x ≢ parent) (components path).1)

-- The offline folder for processed data and where raw data is to go there, else the online one.
abbrev pub IsRoot : FileRequest → Text → Type 0
IsRoot r root =
    ((root ≡ r.offline_path) × (is_offline r ≡ true))
    ⊎ ((root ≡ r.online_path) × ((is_offline r ≡ false) × (root ≢ [])))

nonempty : (x : Text) → is_empty x ≡ false → x ≢ []
unfolding is_empty
nonempty [] h = absurd (ground arith)
nonempty (c ∷ cs) h = λ e. ground arith

-- Of the checks and the choice of the root folder: an error, or the folder and where the name leads.
abbrev pub RootOutcome : FileRequest → ReceiverError ⊎ Text → Type 0
RootOutcome r (inl e) = e ≡ bad_request
RootOutcome r (inr root) = IsRoot r root × LiesInside r.source_type (get_file_name r)

from_request-Outcome :
    (r : FileRequest)
    → LiesInside r.source_type (get_file_name r)
    → RootOutcome r (get_root_folder_from_request r)
unfolding get_root_folder_from_request
from_request-Outcome r inside = elim (Bool-cases (is_offline r)) [
  | inl e ↦ rw e (inl (refl, e), inside)
  | inr e ↦ elim (Bool-cases (is_empty r.online_path)) [
    | inl e' ↦ rw (e, e') refl
    | inr e' ↦ rw (e, e') (inr (refl, (e, nonempty r.online_path e')), inside)
  ]
]

-- An error of a check, which is a bad request, or none.
abbrev Checks : Type 0 → Option ReceiverError → Type 0
Checks P none = P
Checks P (some e) = e ≡ bad_request

name-Checks :
    (fname : Text) → Checks (contains_dots fname ≡ false) (check_file_name_is_absolute fname)
unfolding check_file_name_is_absolute
name-Checks fname = elim (Bool-cases (contains_dots fname)) [
  | inl e ↦ rw e refl
  | inr e ↦ rw e refl
]

folder-Checks :
    (by_type : Text) (folder : Option Text)
    → Checks (folder ≡ some by_type) (folder_result by_type folder)
unfolding folder_result
folder-Checks by_type none = refl
folder-Checks by_type (some f) = elim (Bool-cases (same_text f by_type)) [
  | inl e ↦ rw e (ap some (same_text→≡ f by_type e))
  | inr e ↦ rw e refl
]

unless_error-Outcome :
    (r : FileRequest) (P : Type 0) (err : Option ReceiverError) (next : ReceiverError ⊎ Text)
    → Checks P err
    → (P → RootOutcome r next)
    → RootOutcome r (unless_error err next)
unfolding unless_error
unless_error-Outcome r P (some e) next h k = h
unless_error-Outcome r P none next h k = k h

get_root_folder-Outcome : (r : FileRequest) → RootOutcome r (get_root_folder r)
unfolding get_root_folder check_file_folder_corresponds_to_request_source_type
get_root_folder-Outcome r =
    let fname = get_file_name r in
    let by_type = get_string_from_source_type r.source_type in
    unless_error-Outcome r _ _ _ (name-Checks fname) (λ free.
      unless_error-Outcome r _ _ _ (folder-Checks by_type (file_folder fname)) (λ folder.
        from_request-Outcome r (
          sym (file_folder-first fname by_type folder),
          (
            not_parent (components fname).0 (first-free fname free),
            All-map _ _ (components fname).1 not_parent (others-free fname free),
          ),
        )))

-- What a processor does: nothing but to report a bad request, or the call of the io in the root folder.
abbrev pub Processed :
    {W : Type 0}
    → FileRequest
    → (Text → State W (Option ReceiverError))
    → (Option ReceiverError × W)
    → W
    → Type 0
Processed r store result w =
    (result ≡ (some bad_request, w))
    ⊎ ((root : Text) × ((result ≡ store root w)
          × (IsRoot r root × LiesInside r.source_type (get_file_name r))))

in_folder-Processed :
    {W : Type 0} (r : FileRequest) (store : Text → State W (Option ReceiverError)) (w : W)
    (root : ReceiverError ⊎ Text)
    → RootOutcome r root
    → Processed r store (in_folder store root w) w
unfolding in_folder
in_folder-Processed r store w (inl e) h = inl (ap (λ e. (some e, w)) h)
in_folder-Processed r store w (inr root) h = inr (root, (refl, h))

-- Both processors either report a bad request and store nothing, or make the one call of the io, for this
-- name and size. In the second case the root folder is the offline one, for processed data or where raw
-- data is to go there, or else the online one, which is then not empty; the name begins with the
-- folder of the source type, and none of its components is "..".
pub stored_inside :
    {W : Type 0} (io : FileIo W) (r : FileRequest) (overwrite : Bool) (w : W)
    → Processed r
        (λ root. io.write_data_to_file root (get_file_name r) r.data_size overwrite)
        (write_file io r overwrite w)
        w
      × Processed r
          (λ root. io.receive_data_to_file root (get_file_name r) r.data_size overwrite)
          (receive_file io r overwrite w)
          w
unfolding write_file receive_file
stored_inside io r overwrite w =
    let outcome = get_root_folder-Outcome r in
    let write =
      λ (root : Text). io.write_data_to_file root (get_file_name r) r.data_size overwrite in
    (
      if_both (λ result. Processed r write result w) (r.data_size == 0) (some bad_request, w)
          (in_folder write (get_root_folder r) w) (inl refl)
          (in_folder-Processed r write w (get_root_folder r) outcome),
      in_folder-Processed r _ w (get_root_folder r) outcome,
    )
