-- ===== src/Attrs/Sdk.antt =====
-- The V-Ray AppSDK types that an attribute holds, which the program does not implement.
use vray_for_houdini.Base.{◌≡◌}
use vray_for_houdini.Qt.Text.{QString}

pub record Sdk : Type 1 where
  -- `float` and Houdini's `fpreal`, and the conversion from one to the other.
  pub Float : Type 0
  pub Real : Type 0
  pub widen : Float → Real
  pub zero_float : Float
  pub one_float : Float
  -- `VRay::Vector` with the components `x`, `y`, `z`, and its constructor from three numbers.
  pub Vector : Type 0
  pub make_vector : Real → Real → Real → Vector
  pub vector_x : Vector → Float
  pub vector_y : Vector → Float
  pub vector_z : Vector → Float
  pub Color : Type 0
  pub make_color : Real → Real → Real → Color
  pub AColor : Type 0
  pub make_acolor : Real → Real → Real → Real → AColor
  -- `VRay::Transform` of a matrix and an offset; `Transform{1}` is `transform_one`.
  pub Matrix : Type 0
  pub Transform : Type 0
  pub make_transform : Matrix → Vector → Transform
  pub transform_matrix : Transform → Matrix
  pub transform_one : Transform
  -- `VRay::PluginRef` of a plugin and the name of an output; `no_ref` is the default value.
  pub Plugin : Type 0
  pub PluginRef : Type 0
  pub plugin_ref : Plugin → QString → PluginRef
  pub no_ref : PluginRef
  -- `VUtils::Value`, an item of a generic list, and its default.
  pub Value : Type 0
  pub blank_value : Value
  -- A vector holds the components that it was built from, and a transform its matrix.
  pub vector_eta :
      (v : Vector) → make_vector (widen (vector_x v)) (widen (vector_y v)) (widen (vector_z v)) ≡ v
  pub matrix_transform : (m : Matrix) (o : Vector) → transform_matrix (make_transform m o) ≡ m
