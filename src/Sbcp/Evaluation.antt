-- ===== src/Sbcp/Evaluation.antt =====
-- What a test has to unfold to run libsbcp: a test names `evaluated` alone.
use computer_networking_tamu.Base.{replicate, htons, ntohs, le16, c_string}
use computer_networking_tamu.Sbcp.Types.{attribute_type, message_type}
use computer_networking_tamu.Sbcp.Header
use computer_networking_tamu.Sbcp.Attribute
use computer_networking_tamu.Sbcp.Message
use computer_networking_tamu.Sbcp.Reading
use computer_networking_tamu.Sbcp.Messages

unfoldable pub evaluated : Unit {0}
unfolding replicate htons ntohs le16 c_string attribute_type message_type Header.make_header
    Header.get_version Header.get_type Header.get_length Header.set_length Header.set_type
    Attribute.make_text Attribute.make_count Attribute.size Attribute.bytes Attribute.validate
    Attribute.get_message Attribute.get_username Message.make_message Message.add_client_count
    Message.add_username Message.add_message Message.add_reason Message.add_attribute
    Message.write_at Message.validate Message.change_to_fwd Reading.find Reading.find_from
    Reading.deref Reading.read_attribute Reading.attributes Reading.attributes_from
    Reading.get_message Reading.get_username Messages.make_ack Messages.make_send Messages.make_nak
    Messages.make_online Messages.make_offline
evaluated = tt
