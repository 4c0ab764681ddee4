-- ===== src/Transform/Registration/Numbers.antt =====
-- The numbers of `NodeType` in registration.proto, and what peat-sapient/src/transform/registration.rs
-- makes of them.
use peat_sapient.Base.{
  ℕ, suc, String, ◌≡◌, refl, Option, none, some, List, [], ◌∷◌, arith, get_elem?, zero,
}
use peat_sapient.Base.Int.{ℤ, pos, negsuc}
use peat_sapient.Schema.{CapabilityType}
use peat_sapient.Transform.Registration.{
  NodeType, type_of_number, type_name, node_type_to_capability_type,
}

-- The names of the numbers 0, 1, 2, … of registration.proto, with the kind of capability that each
-- stands for.
abbrev pub node_types : List (String × CapabilityType)
node_types =
    ("Unspecified", CapabilityType.unspecified)
    ∷ ("Other", CapabilityType.unspecified)
    ∷ ("Radar", CapabilityType.sensor)
    ∷ ("Lidar", CapabilityType.sensor)
    ∷ ("Camera", CapabilityType.sensor)
    ∷ ("Seismic", CapabilityType.sensor)
    ∷ ("Acoustic", CapabilityType.sensor)
    ∷ ("ProximitySensor", CapabilityType.sensor)
    ∷ ("PassiveRf", CapabilityType.sensor)
    ∷ ("Human", CapabilityType.unspecified)
    ∷ ("Chemical", CapabilityType.sensor)
    ∷ ("Biological", CapabilityType.sensor)
    ∷ ("Radiation", CapabilityType.sensor)
    ∷ ("Kinetic", CapabilityType.payload)
    ∷ ("Jammer", CapabilityType.payload)
    ∷ ("Cyber", CapabilityType.communication)
    ∷ ("Ldew", CapabilityType.payload)
    ∷ ("Rfdew", CapabilityType.payload)
    ∷ ("MobileNode", CapabilityType.mobility)
    ∷ ("PointableNode", CapabilityType.mobility)
    ∷ ("FusionNode", CapabilityType.compute)
    ∷ []

abbrev pub by_number : ℤ → Option (String × CapabilityType)
by_number (pos n) = get_elem? node_types n
by_number (negsuc n) = none

-- What the code makes of a number.
abbrev pub coded : Option NodeType → Option (String × CapabilityType)
coded none = none
coded (some nt) = some (type_name nt, node_type_to_capability_type nt)

coded-pos : (n : ℕ) → coded (type_of_number (pos n)) ≡ get_elem? node_types n
unfolding type_of_number type_name node_type_to_capability_type
coded-pos zero = refl
coded-pos (suc zero) = refl
coded-pos (suc (suc zero)) = refl
coded-pos (suc (suc (suc zero))) = refl
coded-pos (suc (suc (suc (suc zero)))) = refl
coded-pos (suc (suc (suc (suc (suc zero))))) = refl
coded-pos (suc (suc (suc (suc (suc (suc zero)))))) = refl
coded-pos (suc (suc (suc (suc (suc (suc (suc zero))))))) = refl
coded-pos (suc (suc (suc (suc (suc (suc (suc (suc zero)))))))) = refl
coded-pos (suc (suc (suc (suc (suc (suc (suc (suc (suc zero))))))))) = refl
coded-pos (suc (suc (suc (suc (suc (suc (suc (suc (suc (suc zero)))))))))) = refl
coded-pos (suc (suc (suc (suc (suc (suc (suc (suc (suc (suc (suc zero))))))))))) = refl
coded-pos (suc (suc (suc (suc (suc (suc (suc (suc (suc (suc (suc (suc zero)))))))))))) = refl
coded-pos (suc (suc (suc (suc (suc (suc (suc (suc (suc (suc (suc (suc (suc zero))))))))))))) = refl
coded-pos (suc (suc (suc (suc (suc (suc (suc (suc (suc (suc (suc (suc (suc (suc zero)))))))))))))) =
    refl
coded-pos
      (suc
        (suc (suc (suc (suc (suc (suc (suc (suc (suc (suc (suc (suc (suc (suc zero))))))))))))))) =
    refl
coded-pos
      (suc (
        suc (
          suc
            (suc (suc (suc (suc (suc (suc (suc (suc (suc (suc (suc (suc (suc zero)))))))))))))))) =
    refl
coded-pos
      (suc (
        suc (
          suc (
            suc (
              suc
                (suc (suc (suc (suc (suc (suc (suc (suc (suc (suc (suc (suc zero))))))))))))))))) =
    refl
coded-pos
      (suc (
        suc (
          suc (
            suc (
              suc (
                suc (
                  suc
                    (suc (suc (suc (suc (suc (suc (suc (suc (suc (suc (suc zero)))))))))))))))))) =
    refl
coded-pos
      (suc (
        suc (
          suc (
            suc (
              suc (
                suc (
                  suc (
                    suc (
                      suc
                        (suc (suc (suc (suc (suc (suc (suc (suc (suc (suc zero))))))))))))))))))) =
    refl
coded-pos
      (suc (
        suc (
          suc (
            suc (
              suc (
                suc (
                  suc (
                    suc (
                      suc (
                        suc (
                          suc
                            (suc (suc (suc (suc (suc (suc (suc (suc (suc zero)))))))))))))))))))) =
    refl
coded-pos
      (suc (
        suc (
          suc (
            suc (
              suc (
                suc (
                  suc (
                    suc (
                      suc (
                        suc (
                          suc (
                            suc
                              (suc (suc (suc (suc (suc (suc (suc (suc (suc n))))))))))))))))))))) =
    ground arith

pub coded-by_number : (raw : ℤ) → coded (type_of_number raw) ≡ by_number raw
unfolding type_of_number
coded-by_number (pos n) = coded-pos n
coded-by_number (negsuc n) = refl
