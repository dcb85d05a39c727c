-- ===== src/Livox/Frames.antt =====
-- comm/pub_handler.cpp: the points of a lidar's packets are converted and gathered, and at a frame's
-- end handed to the storage. This file has what one lidar's LidarPubHandler does.
pub mod Handler
pub mod Timer
pub mod Laws
pub mod Callback
pub mod Collect
pub mod Conserve
pub mod Step
pub mod Queue
pub mod Run
use firt_version_ws.Prelude.{
  ℕ, zero, suc, ◌+◌, ◌*◌, ◌/◌, ◌%◌, ◌^◌, Bool, true, false, if◌then◌else◌, Option, none, some, List,
  [], ◌∷◌, ◌++◌, ◌==◌, ◌>>=◌,
}
use firt_version_ws.Platform.{Platform, ◌⊕◌, ◌⊖◌, ◌⊗◌, ◌⊘◌, dec, neg}
use firt_version_ws.Livox.Data.{PointXyzlt}

-- A point of the SDK's packet, in millimetres or centimetres, its coordinates the integers' values.
pub record CartesianPoint (R : Type 0) : Type 0 where
  pub x : R
  pub y : R
  pub z : R
  pub reflectivity : R
  pub tag : ℕ

pub record SphericalPoint (R : Type 0) : Type 0 where
  pub depth : R
  pub theta : R
  pub phi : R
  pub reflectivity : R
  pub tag : ℕ

-- data_type with the points that raw_data is cast to.
pub data RawData (R : Type 0) : Type 0 where
  cartesian_high cartesian_low : List (CartesianPoint R) → RawData R
  spherical : List (SphericalPoint R) → RawData R
  unknown : RawData R

pub record RawPacket (R : Type 0) : Type 0 where
  pub lidar_type : ℕ
  pub handle : ℕ
  pub extrinsic_enable : Bool
  pub point_num : ℕ
  pub line_num : ℕ
  pub time_stamp : ℕ
  pub point_interval : ℕ
  pub raw_data : RawData R

-- ExtParameterDetailed, the rotation row by row.
pub record Extrinsic (R : Type 0) : Type 0 where
  pub trans : R × R × R
  pub row_x : R × R × R
  pub row_y : R × R × R
  pub row_z : R × R × R

-- ExtParameter
pub record ExtParameter (R : Type 0) : Type 0 where
  pub roll : R
  pub pitch : R
  pub yaw : R
  pub x : R
  pub y : R
  pub z : R

module _ {R : Type 0} ⦃p : Platform R⦄ where
  -- The arithmetic on `float`.
  abbrev float_mul : R → R → R
  float_mul a b = p.to_float (a ⊗ b)

  abbrev float_add : R → R → R
  float_add a b = p.to_float (a ⊕ b)

  -- raw.x * row[0] + raw.y * row[1] + raw.z * row[2] + trans, on `float`s.
  unfoldable pub float_transform : R × R × R → R → CartesianPoint R → R
  float_transform row trans raw =
      float_add
        (float_add
          (float_add (float_mul (p.to_float raw.x) row.0) (float_mul (p.to_float raw.y) row.1))
          (float_mul (p.to_float raw.z) row.2))
        trans

  -- The time of the point at i, a sum of uint64_t.
  unfoldable pub point_time : RawPacket R → ℕ → ℕ
  point_time pkt i = (pkt.time_stamp + i * pkt.point_interval) % 2 ^ 64

  -- The bodies of ProcessCartesianHighPoint and ProcessCartesianLowPoint, for a scale of 1000 and 100.
  unfoldable pub cartesian_point :
      R → Extrinsic R → RawPacket R → ℕ → CartesianPoint R → PointXyzlt R
  unfolding float_transform point_time
  cartesian_point scale e pkt i raw =
      let (trans_x, trans_y, trans_z) = e.trans in
      record {
        x = p.to_float (
            if pkt.extrinsic_enable
            then raw.x ⊘ scale
            else float_transform e.row_x trans_x raw ⊘ scale);
        y = p.to_float (
            if pkt.extrinsic_enable
            then raw.y ⊘ scale
            else float_transform e.row_y trans_y raw ⊘ scale);
        z = p.to_float (
            if pkt.extrinsic_enable
            then raw.z ⊘ scale
            else float_transform e.row_z trans_z raw ⊘ scale);
        intensity = raw.reflectivity;
        line = i % pkt.line_num;
        tag = raw.tag;
        offset_time = point_time pkt i;
      }

  -- src_x * row[0] + src_y * row[1] + src_z * row[2] + trans / 1000.0, on `double`s.
  unfoldable pub double_transform : R × R × R → R → R × R × R → R
  double_transform row trans src =
      src.0 ⊗ row.0 ⊕ src.1 ⊗ row.1 ⊕ src.2 ⊗ row.2 ⊕ trans ⊘ dec 1000 0

  -- The body of ProcessSphericalPoint.
  unfoldable pub spherical_point : Extrinsic R → RawPacket R → ℕ → SphericalPoint R → PointXyzlt R
  unfolding double_transform point_time
  spherical_point e pkt i raw =
      let (trans_x, trans_y, trans_z) = e.trans in
      let radius = raw.depth ⊘ dec 1000 0 in
      let theta = raw.theta ⊘ dec 100 0 ⊘ dec 180 0 ⊗ p.pi in
      let phi = raw.phi ⊘ dec 100 0 ⊘ dec 180 0 ⊗ p.pi in
      let src_x = radius ⊗ p.sin theta ⊗ p.cos phi in
      let src_y = radius ⊗ p.sin theta ⊗ p.sin phi in
      let src_z = radius ⊗ p.cos theta in
      let src : R × R × R = (src_x, src_y, src_z) in
      record {
        x =
            p.to_float
              (if pkt.extrinsic_enable then src_x else double_transform e.row_x trans_x src);
        y =
            p.to_float
              (if pkt.extrinsic_enable then src_y else double_transform e.row_y trans_y src);
        z =
            p.to_float
              (if pkt.extrinsic_enable then src_z else double_transform e.row_z trans_z src);
        intensity = raw.reflectivity;
        line = i % pkt.line_num;
        tag = raw.tag;
        offset_time = point_time pkt i;
      }

  -- The value that a LidarPubHandler has before SetLidarsExtParam.
  unfoldable pub default_extrinsic : Extrinsic R
  default_extrinsic = record {
    trans = (dec 0 0, dec 0 0, dec 0 0);
    row_x = (dec 1 0, dec 0 0, dec 0 0);
    row_y = (dec 0 0, dec 1 0, dec 1 0);
    row_z = (dec 0 0, dec 0 0, dec 1 0);
  }

  -- What SetLidarsExtParam computes.
  unfoldable pub extrinsic_of : ExtParameter R → Extrinsic R
  extrinsic_of param =
      let roll = param.roll ⊗ p.pi ⊘ dec 180 0 in
      let pitch = param.pitch ⊗ p.pi ⊘ dec 180 0 in
      let yaw = param.yaw ⊗ p.pi ⊘ dec 180 0 in
      let cos_roll = p.cos roll in
      let cos_pitch = p.cos pitch in
      let cos_yaw = p.cos yaw in
      let sin_roll = p.sin roll in
      let sin_pitch = p.sin pitch in
      let sin_yaw = p.sin yaw in
      record {
        trans = (p.to_float param.x, p.to_float param.y, p.to_float param.z);
        row_x = (
          p.to_float (cos_pitch ⊗ cos_yaw),
          p.to_float (sin_roll ⊗ sin_pitch ⊗ cos_yaw ⊖ cos_roll ⊗ sin_yaw),
          p.to_float (cos_roll ⊗ sin_pitch ⊗ cos_yaw ⊕ sin_roll ⊗ sin_yaw),
        );
        row_y = (
          p.to_float (cos_pitch ⊗ sin_yaw),
          p.to_float (sin_roll ⊗ sin_pitch ⊗ sin_yaw ⊕ cos_roll ⊗ cos_yaw),
          p.to_float (cos_roll ⊗ sin_pitch ⊗ sin_yaw ⊖ sin_roll ⊗ cos_yaw),
        );
        row_z = (
          p.to_float (neg sin_pitch),
          p.to_float (sin_roll ⊗ cos_pitch),
          p.to_float (cos_roll ⊗ cos_pitch),
        );
      }
