-- ===== src/Common/Database/Read/Last.antt =====
-- The last stream of a database (common/cpp/src/database/mongodb_client.cpp).
use asapo.Base.{
  ◌≤◌, ◌≡◌, refl, ap, sym, ◌∙◌, subst, ◌⊎◌, inl, inr, true, false, List, [], ◌∷◌, Option, none,
  some, All, length, drop, ltb, Bool-cases, arith, Text,
}
use asapo.Common.Encoding.{decode_name}
use asapo.Common.Database.{
  not_connected, StreamInfo, new_stream_info, MongoDbClient, Mongo, Db, continue, pure, data_prefix,
}
use asapo.Common.Database.Read.{
  JsonReader, Info, get_stream_info, newer_of, update_last_stream_info, update_unless,
  update_last_stream, decode_on_error, over_names, get_last_stream, mongo_collection_is_data_stream,
}
use asapo.Common.Database.Read.Safe.{IsListed, AllListed, Serves-get_stream_info}
use asapo.Common.Database.Runs.{Runs, Runs-bind, Runs-pure, Runs-weaken}
use asapo.Common.Database.Current.{IsReady, IsName, Runs-with_client, Runs-connected}

abbrev pub IsOneOf : Text → List Text → Type 0
IsOneOf k [] = ⊥
IsOneOf k (x ∷ xs) = (k ≡ x) ⊎ IsOneOf k xs

module _ {W D : Type 0} (io : Mongo W D) (reader : JsonReader) where
  -- The client reads this state of the stream.
  abbrev pub Reading : Text → StreamInfo → Type 0
  Reading name i =
      (s : MongoDbClient × W) × ((s' : MongoDbClient × W) × (get_stream_info io reader name
            new_stream_info s
          ≡ some ((none, i), s')))

  -- The collection is no stream's, or one of a stream that is not newer.
  abbrev pub Covered : StreamInfo → Text → Type 0
  Covered last name =
      (mongo_collection_is_data_stream (decode_name name) ≡ false)
      ⊎ ((i : StreamInfo) × (Reading (decode_name name) i
            × (i.timestamp_created ≤ last.timestamp_created)))

  -- The state that is read of this collection, under the name of its stream.
  abbrev pub IsStateOf : StreamInfo → Text → Type 0
  IsStateOf last name =
      (mongo_collection_is_data_stream (decode_name name) ≡ true)
      × ((i : StreamInfo) × (Reading (decode_name name) i
            × (last ≡ record i { name = drop (length data_prefix) (decode_name name) })))

  -- What is found among these collections, beginning with the one given.
  abbrev pub LastOf : List Text → StreamInfo → Info → Type 0
  LastOf names info (some e, last) = Unit
  LastOf names info (none, last) =
      (info.timestamp_created ≤ last.timestamp_created)
      × (All (Covered last) names
          × ((last ≡ info) ⊎ ((k : Text) × (IsOneOf k names × IsStateOf last k))))

  -- The same for one collection.
  abbrev StepOf : Text → StreamInfo → Info → Type 0
  StepOf name info (some e, last) = Unit
  StepOf name info (none, last) =
      (info.timestamp_created ≤ last.timestamp_created)
      × (Covered last name × ((last ≡ info) ⊎ IsStateOf last name))

  newer-StepOf :
      (name : Text) (info : StreamInfo) (r : Info) (s s' : MongoDbClient × W)
      → mongo_collection_is_data_stream (decode_name name) ≡ true
      → get_stream_info io reader (decode_name name) new_stream_info s ≡ some (r, s')
      → StepOf name info (newer_of io reader (decode_name name) info r)
  unfolding newer_of
  newer-StepOf name info (some e, i) s s' stream h = tt
  newer-StepOf name info (none, i) s s' stream h =
      elim (Bool-cases (ltb info.timestamp_created i.timestamp_created)) [
        | inl e ↦ rw e (
          ground (arith, e),
          (inr (i, ((s, (s', h)), ground arith)), inr (stream, (i, ((s, (s', h)), refl)))),
        )
        | inr e ↦ rw e (ground arith, (inr (i, ((s, (s', h)), ground (arith, e))), inl refl))
      ]

  listed-IsName :
      (name : Text)
      → IsListed io reader name
      → mongo_collection_is_data_stream (decode_name name) ≡ true
      → IsName (decode_name name)
  listed-IsName name (inl e) h = absurd (ground arith)
  listed-IsName name (inr valid) h = valid

  Runs-update_last_stream_info :
      (db name : Text) (info : StreamInfo)
      → IsListed io reader name
      → Runs
          (λ s. IsReady db s.0)
          (update_last_stream_info io reader name info)
          (λ r s. IsReady db s.0 × StepOf name info r)
  unfolding update_last_stream_info
  Runs-update_last_stream_info db name info listed s p =
      elim (Bool-cases (mongo_collection_is_data_stream (decode_name name))) [
        | inl e ↦
            (let (r, (h, q)) =
                Serves-get_stream_info io reader db (decode_name name) new_stream_info
                  (listed-IsName name listed e) s p in
              rw e (
                (newer_of io reader (decode_name name) info r.0, r.1),
                (
                  ap (continue (λ next. pure (newer_of io reader (decode_name name) info next))) h,
                  (q, newer-StepOf name info r.0 s r.1 e h),
                ),
              ))
        | inr e ↦ rw e (((none, info), s), (refl, (p, (ground arith, (inl e, inl refl)))))
      ]

  Covered-later :
      (last last' : StreamInfo) (name : Text)
      → last.timestamp_created ≤ last'.timestamp_created
      → Covered last name
      → Covered last' name
  Covered-later last last' name h (inl e) = inl e
  Covered-later last last' name h (inr (i, (r, le))) = inr (i, (r, ground (arith, h, le)))

  origin :
      (x : Text) (xs : List Text) (info last last' : StreamInfo)
      → (last ≡ info) ⊎ IsStateOf last x
      → (last' ≡ last) ⊎ ((k : Text) × (IsOneOf k xs × IsStateOf last' k))
      → (last' ≡ info) ⊎ ((k : Text) × (IsOneOf k (x ∷ xs) × IsStateOf last' k))
  origin x xs info last last' (inl e) (inl e') = inl (e' ∙ e)
  origin x xs info last last' (inr p) (inl e') =
      inr (x, (inl refl, subst (λ l. IsStateOf l x) (sym e') p))
  origin x xs info last last' from (inr (k, (one, p))) = inr (k, (inr one, p))

  -- What is found after one collection is found from it on.
  step-LastOf :
      (x : Text) (xs : List Text) (info last : StreamInfo) (r : Info)
      → StepOf x info (none, last)
      → LastOf xs last r
      → LastOf (x ∷ xs) info r
  step-LastOf x xs info last (some e, last') step h = tt
  step-LastOf x xs info last (none, last') (le, (covered, from)) (le', (all, from')) = (
    ground (arith, le, le'),
    ((Covered-later last last' x le' covered, all), origin x xs info last last' from from'),
  )

  Runs-update_unless :
      (db x : Text) (xs : List Text) (info : StreamInfo) (rest : StreamInfo → Db W Info) (r : Info)
      → ((i : StreamInfo)
          → Runs (λ s. IsReady db s.0) (rest i) (λ r s. IsReady db s.0 × LastOf xs i r))
      → Runs
          (λ s. IsReady db s.0 × StepOf x info r)
          (update_unless io reader rest r)
          (λ r' s. IsReady db s.0 × LastOf (x ∷ xs) info r')
  unfolding update_unless
  Runs-update_unless db x xs info rest (some e, i) h s p = (((some e, i), s), (refl, (p.0, tt)))
  Runs-update_unless db x xs info rest (none, i) h s p =
      let (r, (e, q)) = h i s p.0 in (r, (e, (q.0, step-LastOf x xs info i r.0 p.1 q.1)))

  Runs-update_last_stream :
      (db : Text) (names : List Text) (info : StreamInfo)
      → All (IsListed io reader) names
      → Runs
          (λ s. IsReady db s.0)
          (update_last_stream io reader names info)
          (λ r s. IsReady db s.0 × LastOf names info r)
  unfolding update_last_stream
  Runs-update_last_stream db [] info h =
      Runs-pure _ _ _ (λ s p. (p, (ground arith, (tt, inl refl))))
  Runs-update_last_stream db (x ∷ xs) info h =
      Runs-bind _ _ _ _ _ (Runs-update_last_stream_info db x info h.0)
        (λ r. Runs-update_unless db x xs info _ r (λ i. Runs-update_last_stream db xs i h.1))

  -- What is found among the collections that the server lists, if it lists them.
  abbrev pub LastOfListed : Text → StreamInfo → Info → Type 0
  LastOfListed db info (some e, last) = Unit
  LastOfListed db info (none, last) =
      (names : List Text) × ((w : W) × (((io.collection_names db none w).0 ≡ some names)
          × LastOf names (record info { timestamp_created = 0; timestamp_lastentry = 0 })
              (none, last)))

  decoded-LastOfListed :
      (db : Text) (info : StreamInfo) (r : Info)
      → LastOfListed db info r
      → LastOfListed db info (decode_on_error io reader r)
  unfolding decode_on_error
  decoded-LastOfListed db info (some e, last) h = tt
  decoded-LastOfListed db info (none, last) h = h

  listed-LastOfListed :
      (db : Text) (info : StreamInfo) (names : List Text) (w : W) (r : Info)
      → (io.collection_names db none w).0 ≡ some names
      → LastOf names (record info { timestamp_created = 0; timestamp_lastentry = 0 }) r
      → LastOfListed db info r
  listed-LastOfListed db info names w (some e, last) h p = tt
  listed-LastOfListed db info names w (none, last) h p = (names, (w, (h, p)))

  Runs-over_names :
      (db : Text) (info : StreamInfo) (w : W) (names : Option (List Text))
      → (io.collection_names db none w).0 ≡ names
      → AllListed io reader names
      → Runs
          (λ s. IsReady db s.0)
          (over_names io reader
            (record info { timestamp_created = 0; timestamp_lastentry = 0 })
            names)
          (λ r s. IsReady db s.0 × LastOfListed db info r)
  unfolding over_names
  Runs-over_names db info w none e h = Runs-pure _ _ _ (λ s p. (p, tt))
  Runs-over_names db info w (some names) e h =
      Runs-weaken _ _ _ _ _ (λ s p. p) (λ r s p. (p.0, listed-LastOfListed db info names w r e p.1))
        (Runs-update_last_stream db names _ h)

  -- On a connected client, for listed streams with names that the client takes, the request for the last
  -- stream ends, and leaves the client ready. If it reports no error, then for each collection that the
  -- server has listed and that is a stream's, a state has been read that is not newer than the one
  -- reported; and this one is what was given with its times set to zero, or the state read of one of
  -- these streams, under its name.
  pub get_last_stream_lem :
      (db : Text) (info : StreamInfo)
      → ((w : W) → AllListed io reader (io.collection_names db none w).0)
      → Runs
          (λ s. IsReady db s.0)
          (get_last_stream io reader info)
          (λ r s. IsReady db s.0 × LastOfListed db info r)
  unfolding get_last_stream
  get_last_stream_lem db info listed (c, w) p =
      Runs-connected db _ _ (some not_connected, info)
        (Runs-bind _ _ _ _ _
          (Runs-with_client db (IsReady db) (λ d. io.collection_names d none) (λ c p. p))
          (λ names s q.
            Runs-bind _ _ _ _ _
              (Runs-over_names db info q.1.0 names (sym q.1.1)
                (subst (AllListed io reader) (sym q.1.1) (listed q.1.0)))
              (λ r. Runs-pure _ _ _ (λ s p. (p.0, decoded-LastOfListed db info r p.1))) s q.0))
        (c, w) p
