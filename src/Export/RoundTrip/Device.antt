-- ===== src/Export/RoundTrip/Device.antt =====
-- Reading back the exported results of the device.
use Prim.Native.String.{String}
use mathlib.Core.List.{map-id}
use mcmqhost.Prelude.{◌≡◌, refl, ◌∙◌, ap, List, [], ◌∷◌, Option, none, some, map}
use mcmqhost.Export.Json.{Json, JsonLaws, filled, array_of, last_of, at-filled, elements-array_of}
use mcmqhost.Export.SimResult.{
  HistogramEntry, HostQueueStats, ChipStats, NvmControllerStats, TsuStats, entry_fields,
  export_histogram_entry, queue_fields, export_queue_stats, chip_fields, export_chip_stats,
  controller_fields, export_nvm_controller_stats, tsu_fields, export_tsu_stats,
}
use mcmqhost.Export.Import.{
  all_read, import_entry, import_queue_stats, import_chip_stats, import_controller_stats,
  import_times, import_tsu_stats,
}

pub all_read-map :
    {A J B : Type 0} (f : J → Option B) (g : A → J) (view : A → B)
    → ((a : A) → f (g a) ≡ some (view a))
    → (xs : List A) → all_read f (map g xs) ≡ some (map view xs)
all_read-map f g view each [] = refl
all_read-map f g view each (x ∷ xs) = rw (each x, all_read-map f g view each xs) refl

module _ {J R : Type 0} (json : Json J R) (laws : JsonLaws json) where
  pub at-null :
      (kvs : List (String × J)) (key : String)
      → json.at key (filled json json.null kvs) ≡ last_of key kvs none
  at-null kvs key =
      at-filled json laws key kvs json.null laws.null-Keyed
      ∙ ap (last_of key kvs) (laws.at-null key)

  -- What a loop of `push_back` calls wrote is read back, if each element is.
  pub array_read :
      {A B : Type 0} (f : J → Option B) (g : A → J) (view : A → B)
      → ((a : A) → f (g a) ≡ some (view a))
      → (xs : List A) → all_read f (json.elements (array_of json (map g xs))) ≡ some (map view xs)
  array_read f g view each xs =
      ap (all_read f) (elements-array_of json laws (map g xs)) ∙ all_read-map f g view each xs

  array_read_id :
      {A : Type 0} (f : J → Option A) (g : A → J)
      → ((a : A) → f (g a) ≡ some a)
      → (xs : List A) → all_read f (json.elements (array_of json (map g xs))) ≡ some xs
  array_read_id f g each xs = array_read f g (λ a. a) each xs ∙ ap some (map-id xs)

  at-entry :
      (e : HistogramEntry R) (key : String)
      → json.at key (export_histogram_entry json e) ≡ last_of key (entry_fields json e) none
  unfolding export_histogram_entry
  at-entry e key = at-null (entry_fields json e) key

  pub import_entry-export_histogram_entry :
      (e : HistogramEntry R) → import_entry json (export_histogram_entry json e) ≡ some e
  unfolding import_entry
  import_entry-export_histogram_entry e = simp (at-entry, laws.as_real-real, laws.as_uint-uint)

  entries_read :
      (es : List (HistogramEntry R))
      → all_read
          (import_entry json)
          (json.elements (array_of json (map (export_histogram_entry json) es)))
        ≡ some es
  entries_read es =
      array_read_id (import_entry json) (export_histogram_entry json)
        import_entry-export_histogram_entry es

  at-queue :
      (q : HostQueueStats R) (key : String)
      → json.at key (export_queue_stats json q) ≡ last_of key (queue_fields json q) none
  unfolding export_queue_stats
  at-queue q key = at-null (queue_fields json q) key

  import_queue_stats-export_queue_stats :
      (q : HostQueueStats R) → import_queue_stats json (export_queue_stats json q) ≡ some q
  unfolding import_queue_stats
  import_queue_stats-export_queue_stats q =
      simp (at-queue, laws.as_real-real, laws.as_uint-uint, entries_read)

  at-chip :
      (c : ChipStats) (key : String)
      → json.at key (export_chip_stats json c) ≡ last_of key (chip_fields json c) none
  unfolding export_chip_stats
  at-chip c key = at-null (chip_fields json c) key

  import_chip_stats-export_chip_stats :
      (c : ChipStats) → import_chip_stats json (export_chip_stats json c) ≡ some c
  unfolding import_chip_stats
  import_chip_stats-export_chip_stats c = simp (at-chip, laws.as_uint-uint)

  chips_read :
      (cs : List ChipStats)
      → all_read
          (import_chip_stats json)
          (json.elements (array_of json (map (export_chip_stats json) cs)))
        ≡ some cs
  chips_read cs =
      array_read_id (import_chip_stats json) (export_chip_stats json)
        import_chip_stats-export_chip_stats cs

  pub queues_read :
      (qs : List (HostQueueStats R))
      → all_read
          (import_queue_stats json)
          (json.elements (array_of json (map (export_queue_stats json) qs)))
        ≡ some qs
  queues_read qs =
      array_read_id (import_queue_stats json) (export_queue_stats json)
        import_queue_stats-export_queue_stats qs

  at-controller :
      (c : NvmControllerStats) (key : String)
      → json.at key (export_nvm_controller_stats json c)
        ≡ last_of key (controller_fields json c) none
  unfolding export_nvm_controller_stats
  at-controller c key = at-null (controller_fields json c) key

  pub import_controller_stats-export_nvm_controller_stats :
      (c : NvmControllerStats)
      → import_controller_stats json (export_nvm_controller_stats json c) ≡ some c
  unfolding import_controller_stats
  import_controller_stats-export_nvm_controller_stats c =
      simp (at-controller, laws.as_uint-uint, chips_read)

  at-tsu :
      (s : TsuStats R) (key : String)
      → json.at key (export_tsu_stats json s) ≡ last_of key (tsu_fields json s) none
  unfolding export_tsu_stats
  at-tsu s key = at-null (tsu_fields json s) key

  pub import_tsu_stats-export_tsu_stats :
      (s : TsuStats R) → import_tsu_stats json (export_tsu_stats json s) ≡ some s
  unfolding import_tsu_stats import_times
  import_tsu_stats-export_tsu_stats s =
      simp (at-tsu, laws.as_uint-uint, laws.as_real-real, entries_read)
