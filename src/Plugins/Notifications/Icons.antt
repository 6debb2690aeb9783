-- ===== src/Plugins/Notifications/Icons.antt =====
-- The icons of notifications in plugins/sf_sendnotifications/notificationslistener.cpp.
use harbour_sailfishconnect.Base.{
  String, not, none, some, [], if◌then◌else◌, ◌==◌, string_eq, eqb, get_or,
}
use harbour_sailfishconnect.Base.Dict.{lookup}
use harbour_sailfishconnect.Plugins.Notifications.{Bytes, ImageArgument, Platform, Notify}

-- An icon source: a null pointer, a buffer, or the use of a null pointer on the way to it.
pub data Icon : Type 0 where
  no_source : Icon
  buffer : Bytes → Icon
  fault : Icon

module _ (V Image : Type 0) (qt : Platform V Image) where
  unfoldable pub image_to_png : Image → Bytes
  image_to_png image = if qt.is_null image then [] else get_or (qt.save_png image) []

  -- The buffer is a null QSharedPointer when it is opened.
  unfoldable pub image_to_png_buffer : Image → Icon
  image_to_png_buffer image = if qt.is_null image then no_source else fault

  unfoldable pub icon_for_image_argument : ImageArgument → Icon
  unfolding image_to_png_buffer
  icon_for_image_argument a =
      if eqb a.bits_per_sample 8 then image_to_png_buffer (qt.decode a) else no_source

  unfoldable pub icon_for_image_data : V → Icon
  unfolding icon_for_image_argument
  icon_for_image_data argument = elim (qt.image_argument argument) [
    | none ↦ no_source
    | some a ↦ icon_for_image_argument a
  ]

  unfoldable pub path_to_png : String → Bytes
  unfolding image_to_png
  path_to_png path =
      if qt.is_png_name path
      then get_or (qt.read_file path) []
      else image_to_png (qt.load_image path)

  unfoldable pub theme_icon_to_png : String → Bytes
  unfolding image_to_png
  theme_icon_to_png icon_name = image_to_png (qt.from_theme icon_name)

  unfoldable pub icon_for_icon_name : String → Icon
  unfolding path_to_png theme_icon_to_png
  icon_for_icon_name icon_name = buffer (
      if not (qt.has_slash icon_name)
      then theme_icon_to_png icon_name
      else if qt.url_scheme icon_name == "file"
      then path_to_png (qt.url_path icon_name)
      else [])

  -- The source of the icon, in the order of the notifications specification.
  unfoldable pub icon_source : Notify V → Icon
  unfolding icon_for_image_data icon_for_icon_name
  icon_source n = elim (lookup "image-data" n.hints) [
    | some v ↦ icon_for_image_data v
    | none ↦ elim (lookup "image_data" n.hints) [
      | some v ↦ icon_for_image_data v
      | none ↦ elim (lookup "image-path" n.hints) [
        | some v ↦ icon_for_icon_name (qt.to_text v)
        | none ↦ elim (lookup "image_path" n.hints) [
          | some v ↦ icon_for_icon_name (qt.to_text v)
          | none ↦
              if not (n.app_icon == "")
              then icon_for_icon_name n.app_icon
              else elim (lookup "icon_data" n.hints) [
                | some v ↦ icon_for_image_data v
                | none ↦ elim (lookup "x-nemo-icon" n.hints) [
                  | some v ↦ icon_for_icon_name (qt.to_text v)
                  | none ↦ no_source
                ]
              ]
        ]
      ]
    ]
  ]
