-- ===== src/Proto/Client/Unlisted.antt =====
-- The end of a list of properties in `svnproto_get_dir`.
use mrksvnup.Base.{
  ℕ, zero, suc, ◌≡◌, ◌≢◌, refl, Bool, true, false, if◌then◌else◌, List, codes, Option, none, some,
  ℤ,
}
use mrksvnup.Proto.Unpack.{
  Code, success, nomatch, other, Reader, Argument, Unpacked, unpacked, fault, stuck, Step, next,
  stop, reading, suppressed, modifier,
}
use mrksvnup.Proto.Unpack.Values.{list_item, value_item, value_read, number_item}
use mrksvnup.Proto.Unpack.Calls.{called, calls_loop, calls_item}
use mrksvnup.Proto.Unpack.Format.{item, items_loop, proceed, ended, svnproto_vunpack}
use mrksvnup.Proto.Client.{Held}
use mrksvnup.Proto.Client.Listing.{Listing, Property, eod_of, unpack_property, get_dir_arguments}

-- The call has returned 0.
abbrev pub is_success : {d : Reader} {U : Type 0} → Unpacked d U → Bool
is_success (unpacked success r u) = true
is_success _ = false

module _ (d : Reader) (no_nomatch : (r r' : d.R) (k : ℕ) → d.read r ≢ some (nomatch k, r')) where
  module _ (U : Type 0) (loop : Code → List (Argument d U) → d.R → U → Unpacked d U) where
    read-fails :
        (r : d.R) (u : U) (then_ : d.R → Step d U) (o : Option (Code × d.R))
        → d.read r ≡ o
        → ((r' : d.R) → is_success (proceed d U loop (then_ r')) ≡ false)
        → is_success (proceed d U loop (reading d U r u then_)) ≡ false
    unfolding reading proceed ended suppressed
    read-fails r u then_ none e go_on = rw (e, is_success) refl
    read-fails r u then_ (some (success, r')) e go_on = rw (e, is_success) (go_on r')
    read-fails r u then_ (some (nomatch k, r')) e go_on = absurd (no_nomatch r r' k e)
    read-fails r u then_ (some (other k, r')) e go_on = rw (e, is_success) refl

    reading-fails :
        (r : d.R) (u : U) (then_ : d.R → Step d U)
        → ((r' : d.R) → is_success (proceed d U loop (then_ r')) ≡ false)
        → is_success (proceed d U loop (reading d U r u then_)) ≡ false
    reading-fails r u then_ = read-fails r u then_ (d.read r) refl

    -- A token that fits, or one that does not.
    choice-fails :
        (b : Bool) (args : List (Argument d U)) (r r' : d.R) (u u' : U)
        → is_success (loop success args r u) ≡ false
        → is_success
            (proceed d U loop (if b then next success args r u else stop (nomatch 3) r' u'))
          ≡ false
    unfolding proceed ended suppressed
    choice-fails true args r r' u u' h = h
    choice-fails false args r r' u u' h = refl

    paren-fails :
        (b : Bool) (args : List (Argument d U)) (r r' : d.R) (u u' : U)
        → is_success (loop success args r u) ≡ false
        → is_success
            (proceed d U loop (if b then next success args r u else stop (nomatch 1) r' u'))
          ≡ false
    unfolding proceed ended suppressed
    paren-fails true args r r' u u' h = h
    paren-fails false args r r' u u' h = refl

  module _ (fuel : ℕ) (junk : ℤ) where
    abbrev L : Type 0
    L = Held Listing

    -- The loop over the properties goes on or ends the call with an error.
    property-fails :
        (loop : Code → List (Argument d L) → d.R → L → Unpacked d L) (args : List (Argument d L))
        (left : ℕ) (h : L)
        → ((r : d.R) (h : L)
            → is_success
                (proceed d L loop (calls_loop d L (unpack_property d fuel junk) args left r h))
              ≡ false)
        → (x : Unpacked d Property)
        → is_success (
            proceed d L loop (
              called d L
                (elim x [
                  | unpacked res r' p ↦ some (eod_of res, r', h)
                  | fault ↦ none
                  | stuck ↦ none
                ])
                λ code r' u'. elim code [
                  | success ↦ calls_loop d L (unpack_property d fuel junk) args left r' u'
                  | nomatch k ↦ next (nomatch k) args (d.recycle r') u'
                  | other k ↦ stop (other k) r' u'
                ]))
          ≡ false
    unfolding called proceed ended suppressed
    property-fails loop args left h again (unpacked success r p) = again r h
    property-fails loop args left h again (unpacked (nomatch k) r p) = refl
    property-fails loop args left h again (unpacked (other k) r p) = refl
    property-fails loop args left h again fault = refl
    property-fails loop args left h again stuck = refl

    properties-fail :
        (loop : Code → List (Argument d L) → d.R → L → Unpacked d L) (args : List (Argument d L))
        (left : ℕ) (r : d.R) (h : L)
        → is_success (proceed d L loop (calls_loop d L (unpack_property d fuel junk) args left r h))
          ≡ false
    unfolding calls_loop unpack_property proceed
    properties-fail loop args zero r h = refl
    properties-fail loop args (suc left) r h =
        property-fails loop args left h (properties-fail loop args left) _

    -- The format of the listing.
    pub listing-fails :
        (r : d.R) (h : L)
        → is_success
            (svnproto_vunpack d L fuel (codes "(n(r*)(r*)r?)") (get_dir_arguments d fuel junk) r h)
          ≡ false
    unfolding svnproto_vunpack items_loop modifier item list_item number_item value_item value_read
        calls_item
    listing-fails r h = reading-fails L _ r h _ λ r1. paren-fails L _ _ _ r1 _ h h (
        reading-fails L _ r1 h _ λ r2. choice-fails L _ _ _ r2 _ _ _ (
          reading-fails L _ r2 _ _
            λ r3. paren-fails L _ _ _ r3 _ _ _ (properties-fail _ _ fuel r3 _)))
